-- ===== src/Devices/Durability.antt =====
-- linien-gateway/app/device_config_store.py: the settings in memory and on disk.
use linien_multi_device.Prelude.{
  Bool, true, false, ◌&&◌, Option, none, String, List, [], ◌∷◌, ◌≡◌, refl, sym, ap, ◌∙◌, arith,
  eq_iff, if◌then◌else◌, Option-cases, Bool-cases, inl, inr,
}
use linien_multi_device.Prelude.Assoc.{Assoc, lookup, insert, erase}
use linien_multi_device.Devices.Settings.{
  Raw, other, mapping, known_names, is_member, pick, keep_item, load_items, as_raws, item_or_empty,
}

module _ {V : Type 0} where
  -- `get_device_configs(key).get(name)`
  abbrev pub config_of : String → String → Assoc (Assoc V) → Option V
  config_of key name items = lookup name (item_or_empty (lookup key items))

  lookup-pick :
      (name : String) (names : List String) (raw : Assoc V)
      → lookup name (pick names raw) ≡ (if is_member name names then lookup name raw else none)
  unfolding pick lookup
  lookup-pick name [] raw = refl
  lookup-pick name (n ∷ ns) raw = elim (Option-cases (lookup n raw)) [
    | inl e ↦ ground (arith, e, eq_iff n name, lookup-pick name ns raw)
    | inr (v, e) ↦ ground (arith, e, eq_iff n name, lookup-pick name ns raw)
  ]

  abbrev all_known : Assoc V → Bool
  all_known [] = true
  all_known ((name, _) ∷ rest) = is_member name known_names && all_known rest

  abbrev is_filled : Assoc V → Bool
  is_filled [] = false
  is_filled (_ ∷ _) = true

  -- Each device's item has a configuration, and only those with a known name.
  abbrev pub is_known : Assoc (Assoc V) → Bool
  is_known [] = true
  is_known ((_, item) ∷ rest) = is_filled item && all_known item && is_known rest

  lookup-unknown :
      (name : String) (item : Assoc V)
      → is_member name known_names ≡ false
      → all_known item ≡ true
      → lookup name item ≡ none
  unfolding lookup
  lookup-unknown name [] h k = refl
  lookup-unknown name ((n, v) ∷ rest) h k = ground (arith, eq_iff n name, lookup-unknown name rest)

  pick-filled :
      (item : Assoc V)
      → is_filled item ≡ true
      → all_known item ≡ true
      → is_filled (pick known_names item) ≡ true
  unfolding lookup
  pick-filled [] h k = cc
  pick-filled ((n, v) ∷ rest) h k =
      ground (arith, eq_iff n n, lookup-pick n known_names ((n, v) ∷ rest))

  pick-all_known :
      (names : List String) (item : Assoc V)
      → ((n : String) → is_member n names ≡ true → is_member n known_names ≡ true)
      → all_known (pick names item) ≡ true
  unfolding pick
  pick-all_known [] item h = refl
  pick-all_known (n ∷ ns) item h =
      let rest = pick-all_known ns item (λ m p. h m (ground arith)) in
      let first = h n (ground (arith, eq_iff n n)) in ground (arith, first, rest)

  pub load_items-is_known : (raws : Assoc (Raw V)) → is_known (load_items raws) ≡ true
  unfolding load_items
  load_items-is_known [] = refl
  load_items-is_known ((key, other) ∷ rest) = load_items-is_known rest
  load_items-is_known ((key, mapping raw) ∷ rest) =
      ground (arith, load_items-is_known rest, pick-all_known known_names raw (λ n p. p))

  pub insert-all_known :
      (name : String) (v : V) (item : Assoc V)
      → is_member name known_names ≡ true
      → all_known item ≡ true
      → (all_known (insert name v item) ≡ true) × (is_filled (insert name v item) ≡ true)
  unfolding insert
  insert-all_known name v [] h k = ground arith
  insert-all_known name v ((n, w) ∷ rest) h k = ground (arith, insert-all_known name v rest)

  pub lookup-all_known :
      (key : String) (items : Assoc (Assoc V))
      → is_known items ≡ true
      → all_known (item_or_empty (lookup key items)) ≡ true
  unfolding lookup
  lookup-all_known key [] h = refl
  lookup-all_known key ((j, item) ∷ rest) h = ground (arith, lookup-all_known key rest)

  pub insert-is_known :
      (key : String) (item : Assoc V) (items : Assoc (Assoc V))
      → is_filled item && all_known item ≡ true
      → is_known items ≡ true
      → is_known (insert key item items) ≡ true
  unfolding insert
  insert-is_known key item [] h k = ground (arith, h)
  insert-is_known key item ((j, w) ∷ rest) h k = ground (arith, h, insert-is_known key item rest)

  pub erase-is_known :
      (key : String) (items : Assoc (Assoc V))
      → is_known items ≡ true
      → is_known (erase key items) ≡ true
  unfolding erase
  erase-is_known key [] h = refl
  erase-is_known key ((j, w) ∷ rest) h = ground (arith, erase-is_known key rest)

  lookup-pick_known :
      (name : String) (item : Assoc V)
      → all_known item ≡ true
      → lookup name (pick known_names item) ≡ lookup name item
  lookup-pick_known name item h = elim (Bool-cases (is_member name known_names)) [
    | inl p ↦
        lookup-pick name known_names item
        ∙ ap (λ (b : Bool). if b then lookup name item else none) p
    | inr p ↦
        lookup-pick name known_names item
        ∙ ap (λ (b : Bool). if b then lookup name item else none) p
        ∙ sym (lookup-unknown name item p h)
  ]

  keep_item-filled :
      (key : String) (item : Assoc V) (rest : Assoc (Assoc V))
      → is_filled item ≡ true
      → keep_item key item rest ≡ (key, item) ∷ rest
  keep_item-filled key [] rest h = cc
  keep_item-filled key (c ∷ cs) rest h = refl

  same_head :
      (key name j : String) (item item' : Assoc V) (rest rest' : Assoc (Assoc V))
      → lookup name item ≡ lookup name item'
      → config_of key name rest ≡ config_of key name rest'
      → config_of key name ((j, item) ∷ rest) ≡ config_of key name ((j, item') ∷ rest')
  unfolding lookup
  same_head key name j item item' rest rest' h k = ground (arith, h, k)

  -- A store's items, written out and loaded again, hold the same configurations.
  pub load_items-as_raws :
      (key name : String) (items : Assoc (Assoc V))
      → is_known items ≡ true
      → config_of key name (load_items (as_raws items)) ≡ config_of key name items
  unfolding load_items as_raws
  load_items-as_raws key name [] h = refl
  load_items-as_raws key name ((j, item) ∷ rest) h =
      let known : all_known item ≡ true = ground arith in
      let filled : is_filled item ≡ true = ground arith in
      let loaded = load_items (as_raws rest) in
      ap (config_of key name)
        (keep_item-filled j (pick known_names item) loaded (pick-filled item filled known))
      ∙ same_head key name j (pick known_names item) item loaded rest
          (lookup-pick_known name item known) (load_items-as_raws key name rest (ground arith))
