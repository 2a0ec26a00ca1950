-- ===== src/Groups/Storage.antt =====
-- groups.json as it is written and read (linien-gateway/app/group_store.py).
use linien_multi_device.Prelude.{
  ℕ, suc, ◌<◌, none, false, List, [], ◌∷◌, String, ◌≡◌, refl, ap, ◌∙◌, arith, str_eq, eq_iff,
}
use linien_multi_device.Groups.{
  Group, text_items, texts_of, group_json, group_of, build_group, get, prepend, read_groups,
  candidates, values_of, number_groups, load_groups, save_groups, device_keys_of, truth, Fields,
  field, drop_field, as_dict,
}

texts_of-text_items : (keys : List String) → texts_of (text_items keys) ≡ keys
unfolding texts_of text_items
texts_of-text_items [] = refl
texts_of-text_items (k ∷ keys) = ap (λ ks. k ∷ ks) (texts_of-text_items keys)

read-number_groups :
    (str_of : ℕ → String) (i : ℕ) (groups : List Group)
    → read_groups (values_of (number_groups str_of i groups)) ≡ groups
unfolding read_groups number_groups values_of group_of group_json get build_group device_keys_of
    truth prepend
read-number_groups str_of i [] = refl
read-number_groups str_of i (g ∷ rest) =
    ground (arith, texts_of-text_items g.device_keys, read-number_groups str_of (suc i) rest)

-- Two indices are never written alike.
abbrev pub IsInjective : (ℕ → String) → Type 0
IsInjective str_of = (i j : ℕ) → str_of i ≡ str_of j → i ≡ j

different :
    (str_of : ℕ → String) (i j : ℕ)
    → IsInjective str_of
    → i < j
    → str_eq (str_of j) (str_of i) ≡ false
different str_of i j inj h = ground (arith, h, eq_iff (str_of j) (str_of i), inj j i)

-- The fields from `j` on have another name than an earlier one.
number_groups-fresh :
    (str_of : ℕ → String) (i j : ℕ) (groups : List Group)
    → IsInjective str_of
    → i < j
    → let fields = number_groups str_of j groups in
      (get (str_of i) fields ≡ none) × (drop_field (str_of i) fields ≡ fields)
unfolding number_groups get drop_field
number_groups-fresh str_of i j [] inj h = (refl, refl)
number_groups-fresh str_of i j (g ∷ rest) inj h =
    let (none_there, same) = number_groups-fresh str_of i (suc j) rest inj (omega (arith, h)) in
    let other = different str_of i j inj h in
    (rw other none_there, rw other (ap (field (str_of j) (group_json g)) same))

number_groups-as_dict :
    (str_of : ℕ → String) (i : ℕ) (groups : List Group)
    → IsInjective str_of
    → as_dict (number_groups str_of i groups) ≡ number_groups str_of i groups
unfolding number_groups as_dict
number_groups-as_dict str_of i [] inj = refl
number_groups-as_dict str_of i (g ∷ rest) inj =
    let (fresh, same) = number_groups-fresh str_of i (suc i) rest inj (omega arith) in
    rw (number_groups-as_dict str_of (suc i) rest inj, fresh, same) refl

-- Where no two indices are written alike, the groups that are saved are the groups that are loaded, in
-- the same order, with the same keys, names, devices and flags.
pub load-save :
    (str_of : ℕ → String) (groups : List Group)
    → IsInjective str_of
    → load_groups (save_groups str_of groups) ≡ groups
unfolding load_groups save_groups candidates
load-save str_of groups inj =
    ap (λ (f : Fields). read_groups (values_of f)) (number_groups-as_dict str_of 0 groups inj)
    ∙ read-number_groups str_of 0 groups
