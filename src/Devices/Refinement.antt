-- ===== src/Devices/Refinement.antt =====
-- linien-gateway/app/device_store.py: the cached store against a plain list of devices.
use linien_multi_device.Prelude.{
  Bool, true, Option, none, some, is_some, String, List, [], ◌∷◌, ◌++◌, ◌≡◌, ◌⊎◌, inl, inr, refl,
  ap, ◌∙◌, arith, str_eq, if◌then◌else◌, Option-cases,
}
use linien_multi_device.Devices.{
  Device, Client, Store, find_device, safe_load, list_devices, get_device, write, save_device,
  remove_device,
}

-- The specification: a list of devices.
module _ {A : Type 0} where
  unfoldable pub replace : Device A → List (Device A) → List (Device A)
  replace d [] = []
  replace d (x ∷ xs) = let rest = replace d xs in if str_eq x.key d.key then d ∷ xs else x ∷ rest

  unfoldable pub without : String → List (Device A) → List (Device A)
  without key [] = []
  without key (x ∷ xs) = let rest = without key xs in if str_eq x.key key then rest else x ∷ rest

  unfoldable pub put : Device A → List (Device A) → List (Device A)
  unfolding replace find_device
  put d ds = if is_some (find_device d.key ds) then replace d ds else ds ++ d ∷ []

-- What the code relies on of linien_client.device, where the file can be read.
pub record Laws {A F : Type 0} (client : Client A F) : Type 0 where
  pub add_law :
      (d : Device A) (f : F) (ds : List (Device A))
      → client.load f ≡ some ds
      → find_device d.key ds ≡ none
      → (g : F) × ((client.add d f ≡ some g) × (client.load g ≡ some (ds ++ d ∷ [])))
  pub update_law :
      (d old : Device A) (f : F) (ds : List (Device A))
      → client.load f ≡ some ds
      → find_device d.key ds ≡ some old
      → (g : F) × ((client.update d f ≡ some g) × (client.load g ≡ some (replace d ds)))
  pub delete_law :
      (d : Device A) (f : F) (ds : List (Device A))
      → client.load f ≡ some ds
      → (g : F) × ((client.delete d f ≡ some g) × (client.load g ≡ some (without d.key ds)))

pub data Call (A : Type 0) : Type 0 where
  list_call : Call A
  get_call : String → Call A
  save_call : Device A → Call A
  remove_call : Device A → Call A

-- What a call answers.
pub data Reply (A : Type 0) : Type 0 where
  devices : List (Device A) → Reply A
  device : Option (Device A) → Reply A
  done : Bool → Reply A

module _ {A : Type 0} where
  unfoldable pub spec : Call A → List (Device A) → List (Device A) × Reply A
  spec list_call ds = (ds, devices ds)
  spec (get_call key) ds = (ds, device (find_device key ds))
  spec (save_call d) ds = (put d ds, done true)
  spec (remove_call d) ds = (without d.key ds, done true)

  unfoldable pub spec_run : List (Call A) → List (Device A) → List (Reply A)
  spec_run [] ds = []
  spec_run (c ∷ cs) ds = let (ds', reply) = spec c ds in reply ∷ spec_run cs ds'

module _ {A F : Type 0} (client : Client A F) where
  unfoldable pub step : Call A → Store A F → Store A F × Reply A
  step list_call s = let (s', ds) = list_devices client s in (s', devices ds)
  step (get_call key) s = let (s', d) = get_device client key s in (s', device d)
  step (save_call d) s = let (s', ok) = save_device client d s in (s', done ok)
  step (remove_call d) s = let (s', ok) = remove_device client d s in (s', done ok)

  unfoldable pub run : List (Call A) → Store A F → List (Reply A)
  run [] s = []
  run (c ∷ cs) s = let (s', reply) = step c s in reply ∷ run cs s'

  -- The store stands for a list: the file holds it, and so does the cache where there is one.
  abbrev pub Refines : Store A F → List (Device A) → Type 0
  Refines s ds = (client.load s.file ≡ some ds) × ((s.cache ≡ none) ⊎ (s.cache ≡ some ds))

  list_devices-Refines :
      (s : Store A F) (ds : List (Device A))
      → Refines s ds
      → let (s', answer) = list_devices client s in Refines s' ds × (answer ≡ ds)
  unfolding list_devices safe_load
  list_devices-Refines s ds h = ground (arith, h)

  safe_load-Refines :
      (s : Store A F) (ds : List (Device A)) → Refines s ds → safe_load client s ≡ ds
  unfolding safe_load
  safe_load-Refines s ds h = ground (arith, h)

  write-put :
      (laws : Laws client) (d : Device A) (f : F) (ds : List (Device A))
      → client.load f ≡ some ds
      → (g : F) × ((write client (find_device d.key ds) d f ≡ some g)
          × (client.load g ≡ some (put d ds)))
  unfolding write put
  write-put laws d f ds e = elim (Option-cases (find_device d.key ds)) [
    | inl p ↦
        (let (g, (made, loads)) = laws.add_law d f ds e p in
          (g, (ground (arith, made), ground (arith, loads))))
    | inr (old, p) ↦
        (let (g, (made, loads)) = laws.update_law d old f ds e p in
          (g, (ground (arith, made), ground (arith, loads))))
  ]

  abbrev Answers : Store A F × Reply A → List (Device A) × Reply A → Type 0
  Answers (s', reply) (ds', expected) = Refines s' ds' × (reply ≡ expected)

  step-Refines :
      (laws : Laws client) (c : Call A) (s : Store A F) (ds : List (Device A))
      → Refines s ds
      → Answers (step c s) (spec c ds)
  unfolding step spec get_device save_device remove_device
  step-Refines laws list_call s ds h = ground (arith, list_devices-Refines s ds h)
  step-Refines laws (get_call key) s ds h = ground (arith, list_devices-Refines s ds h)
  step-Refines laws (save_call d) s ds h =
      let (stored, _) = h in
      let (g, (made, loads)) = write-put laws d s.file ds stored in
      ground (arith, safe_load-Refines s ds h, made, loads)
  step-Refines laws (remove_call d) s ds h =
      let (stored, _) = h in
      let (g, (made, loads)) = laws.delete_law d s.file ds stored in ground (arith, made, loads)

  -- With a readable file and linien_client's documented behaviour: over any run of calls, the cached
  -- store gives the replies that a plain list of devices gives, and every save and remove is made.
  pub run-spec_run :
      (laws : Laws client) (cs : List (Call A)) (s : Store A F) (ds : List (Device A))
      → Refines s ds
      → run cs s ≡ spec_run cs ds
  unfolding run spec_run
  run-spec_run laws [] s ds h = refl
  run-spec_run laws (c ∷ cs) s ds h =
      let (kept, same) = step-Refines laws c s ds h in
      let (s', reply) = step c s in
      let (ds', expected) = spec c ds in
      ap (λ (r : Reply A). r ∷ run cs s') same
      ∙ ap (λ (rs : List (Reply A)). expected ∷ rs) (run-spec_run laws cs s' ds' kept)
