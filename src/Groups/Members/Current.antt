-- ===== src/Groups/Members/Current.antt =====
-- What the groups list after a refresh and after a device is removed
-- (linien-gateway/app/group_store.py).
use linien_multi_device.Prelude.{
  ℕ, Bool, true, false, not, ◌||◌, ◌&&◌, String, List, [], ◌∷◌, ◌++◌, str_eq, filter, map, ◌≡◌,
  arith, eq_iff, refl, ap, any, All, if_intro,
}
use linien_multi_device.Groups.{Group, File, contains, load_groups}
use linien_multi_device.Groups.Storage.{IsInjective, load-save}
use linien_multi_device.Groups.Members.{
  same_keys, known_only, restrict, missing_from, include_all, refresh, is_changed, list_loaded,
  list_groups, drop_device, holds_device, remove_device_from_groups,
}

same_keys-eq : (xs bs : List String) → same_keys xs bs ≡ true → xs ≡ bs
unfolding same_keys
same_keys-eq [] [] h = refl
same_keys-eq [] (b ∷ bs) h = ground arith
same_keys-eq (a ∷ xs) [] h = ground arith
same_keys-eq (a ∷ xs) (b ∷ bs) h = ground (arith, eq_iff a b, same_keys-eq xs bs)

contains-append :
    (k : String) (xs ys : List String) → contains k (xs ++ ys) ≡ (contains k xs || contains k ys)
unfolding contains
contains-append k [] ys = refl
contains-append k (x ∷ xs) ys = ground (arith, contains-append k xs ys)

contains-filter :
    (keep : String → Bool) (k : String) (xs : List String)
    → contains k (filter keep xs) ≡ (keep k && contains k xs)
unfolding contains
contains-filter keep k [] = ground arith
contains-filter keep k (x ∷ xs) = ground (arith, eq_iff x k, contains-filter keep k xs)

-- The devices of a group that list_groups returns: those it had that are known, and every known one
-- where it includes them by itself.
include_all-contains :
    (devices : List String) (g : Group) (k : String)
    → contains k (include_all devices (restrict devices g)).device_keys
      ≡ (contains k devices && (g.auto_include || contains k g.device_keys))
unfolding include_all restrict missing_from known_only
include_all-contains devices g k =
    let kept = known_only devices g.device_keys in
    ground (
      arith,
      contains-append k kept (missing_from kept devices),
      contains-filter (λ d. contains d devices) k g.device_keys,
      contains-filter (λ d. not (contains d kept)) k devices,
    )

restrict-same :
    (devices : List String) (g : Group)
    → (restrict devices g).device_keys ≡ g.device_keys
    → restrict devices g ≡ g
unfolding restrict
restrict-same devices g h = ap (λ ks. record g { device_keys = ks }) h

include_all-same :
    (devices : List String) (g : Group)
    → (include_all devices g).device_keys ≡ g.device_keys
    → include_all devices g ≡ g
unfolding include_all
include_all-same devices g =
    if_intro (λ (x : Group). x.device_keys ≡ g.device_keys → x ≡ g) g.auto_include _ _
      (λ t h. ap (λ ks. record g { device_keys = ks }) h) (λ f h. refl)

refresh-unchanged :
    (devices : List String) (groups : List Group)
    → is_changed devices groups ≡ false
    → refresh devices groups ≡ groups
unfolding is_changed refresh
refresh-unchanged devices [] h = refl
refresh-unchanged devices (g ∷ rest) h =
    let kept = restrict devices g in
    ground (
      arith,
      same_keys-eq kept.device_keys g.device_keys,
      same_keys-eq (include_all devices kept).device_keys kept.device_keys,
      restrict-same devices g,
      include_all-same devices kept,
      refresh-unchanged devices rest,
    )

list_loaded-load :
    (str_of : ℕ → String) (inj : IsInjective str_of) (new_key : String) (devices : List String)
    (file : File) (groups : List Group)
    → load_groups file ≡ groups
    → load_groups (list_loaded str_of new_key devices file groups).0
      ≡ (list_loaded str_of new_key devices file groups).1
unfolding list_loaded
list_loaded-load str_of inj new_key devices file [] h = load-save str_of _ inj
list_loaded-load str_of inj new_key devices file (g ∷ rest) h =
    ground (
      arith,
      load-save str_of (refresh devices (g ∷ rest)) inj,
      refresh-unchanged devices (g ∷ rest),
    )

-- The groups that list_groups returns are those that the file holds afterwards, whether it wrote the
-- file or not.
pub list_groups-load :
    (str_of : ℕ → String) (inj : IsInjective str_of) (new_key : String) (devices : List String)
    (file : File)
    → load_groups (list_groups str_of new_key devices file).0
      ≡ (list_groups str_of new_key devices file).1
unfolding list_groups
list_groups-load str_of inj new_key devices file =
    list_loaded-load str_of inj new_key devices file (load_groups file) refl

-- A group of `groups` lists known devices only, and every one of them if it includes them by itself.
abbrev pub IsCurrent : List String → Group → Type 0
IsCurrent devices g =
    (k : String)
    → (contains k g.device_keys ≡ true → contains k devices ≡ true)
      × (g.auto_include ≡ true → contains k devices ≡ true → contains k g.device_keys ≡ true)

include_all-auto :
    (devices : List String) (g : Group)
    → (include_all devices (restrict devices g)).auto_include ≡ g.auto_include
unfolding include_all restrict
include_all-auto devices g = ground arith

refreshed-IsCurrent :
    (devices : List String) (g : Group)
    → IsCurrent devices (include_all devices (restrict devices g))
refreshed-IsCurrent devices g k =
    ground (arith, include_all-contains devices g k, include_all-auto devices g)

refresh-IsCurrent :
    (devices : List String) (groups : List Group) → All (IsCurrent devices) (refresh devices groups)
unfolding refresh
refresh-IsCurrent devices [] = tt
refresh-IsCurrent devices (g ∷ rest) =
    (refreshed-IsCurrent devices g, refresh-IsCurrent devices rest)

list_loaded-IsCurrent :
    (str_of : ℕ → String) (new_key : String) (devices : List String) (file : File)
    (groups : List Group)
    → All (IsCurrent devices) (list_loaded str_of new_key devices file groups).1
unfolding list_loaded
list_loaded-IsCurrent str_of new_key devices file [] = ((λ k. (λ h. h, λ a h. h)), tt)
list_loaded-IsCurrent str_of new_key devices file (g ∷ rest) = refresh-IsCurrent devices (g ∷ rest)

-- Whatever groups.json holds, no group that list_groups returns lists a device that does not exist,
-- and every group with auto_include lists all devices that do.
pub list_groups-IsCurrent :
    (str_of : ℕ → String) (new_key : String) (devices : List String) (file : File)
    → All (IsCurrent devices) (list_groups str_of new_key devices file).1
unfolding list_groups
list_groups-IsCurrent str_of new_key devices file =
    list_loaded-IsCurrent str_of new_key devices file (load_groups file)

dropped :
    (key : String) (groups : List Group)
    → All (λ (g : Group). contains key g.device_keys ≡ false) (map (drop_device key) groups)
unfolding drop_device
dropped key [] = tt
dropped key (g ∷ rest) = (
  ground (
    arith,
    eq_iff key key,
    contains-filter (λ (k : String). not (str_eq k key)) key g.device_keys,
  ),
  dropped key rest,
)

unheld :
    (key : String) (groups : List Group)
    → any (holds_device key) groups ≡ false
    → All (λ (g : Group). contains key g.device_keys ≡ false) groups
unfolding holds_device
unheld key [] h = tt
unheld key (g ∷ rest) h = (ground arith, unheld key rest (ground arith))

-- After remove_device_from_groups no group of the file lists the device.
pub remove_device-gone :
    (str_of : ℕ → String) (inj : IsInjective str_of) (key : String) (file : File)
    → All
        (λ (g : Group). contains key g.device_keys ≡ false)
        (load_groups (remove_device_from_groups str_of key file))
unfolding remove_device_from_groups
remove_device-gone str_of inj key file =
    if_intro (λ (f : File). All (λ (g : Group). contains key g.device_keys ≡ false) (load_groups f))
      (any (holds_device key) (load_groups file)) _ _
      (λ t.
        simp (load-save str_of (map (drop_device key) (load_groups file)) inj)
          (dropped key (load_groups file)))
      (λ f. unheld key (load_groups file) f)
