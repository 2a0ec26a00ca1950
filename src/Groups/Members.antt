-- ===== src/Groups/Members.antt =====
-- The devices of the groups (linien-gateway/app/group_store.py): list_groups,
-- add_device_to_auto_groups and remove_device_from_groups. `new_key` is the key of a new group.
pub mod Current
use linien_multi_device.Prelude.{
  ℕ, Bool, true, false, not, ◌||◌, ◌&&◌, String, List, [], ◌∷◌, ◌++◌, str_eq, if◌then◌else◌, filter,
  map, any,
}
use linien_multi_device.Groups.{Group, File, contains, load_groups, save_groups}

same_keys : List String → List String → Bool
same_keys [] [] = true
same_keys (a ∷ xs) (b ∷ bs) = str_eq a b && same_keys xs bs
same_keys _ _ = false

-- The first loop of list_groups: only keys of known devices stay.
known_only : List String → List String → List String
known_only devices keys = filter (λ (k : String). contains k devices) keys

restrict : List String → Group → Group
unfolding known_only
restrict devices g = record g { device_keys = known_only devices g.device_keys }

missing_from : List String → List String → List String
missing_from keys devices = filter (λ (k : String). not (contains k keys)) devices

-- The second loop: a group with auto_include gets the devices that it lacks.
include_all : List String → Group → Group
unfolding missing_from
include_all devices g =
    if g.auto_include
    then record g { device_keys = g.device_keys ++ missing_from g.device_keys devices }
    else g

refresh : List String → List Group → List Group
unfolding restrict include_all
refresh devices [] = []
refresh devices (g ∷ rest) = include_all devices (restrict devices g) ∷ refresh devices rest

is_changed : List String → List Group → Bool
unfolding refresh same_keys
is_changed devices [] = false
is_changed devices (g ∷ rest) =
    not (same_keys (restrict devices g).device_keys g.device_keys)
    || not (
        same_keys (include_all devices (restrict devices g)).device_keys
          (restrict devices g).device_keys)
    || is_changed devices rest

list_loaded : (ℕ → String) → String → List String → File → List Group → File × List Group
unfolding is_changed refresh
list_loaded str_of new_key devices file [] =
    let all : Group = record {
      key = new_key;
      name = "All devices";
      device_keys = devices;
      auto_include = true;
    } in
    (save_groups str_of (all ∷ []), all ∷ [])
list_loaded str_of new_key devices file (g ∷ rest) =
    let groups = refresh devices (g ∷ rest) in
    (if is_changed devices (g ∷ rest) then save_groups str_of groups else file, groups)

pub list_groups : (ℕ → String) → String → List String → File → File × List Group
unfolding list_loaded
list_groups str_of new_key devices file = list_loaded str_of new_key devices file (load_groups file)

add_device : String → Group → Group
add_device key g =
    if g.auto_include && not (contains key g.device_keys)
    then record g { device_keys = g.device_keys ++ key ∷ [] }
    else g

lacks : String → Group → Bool
lacks key g = g.auto_include && not (contains key g.device_keys)

pub add_device_to_auto_groups : (ℕ → String) → String → File → File
unfolding add_device lacks
add_device_to_auto_groups str_of key file =
    if any (lacks key) (load_groups file)
    then save_groups str_of (map (add_device key) (load_groups file))
    else file

drop_device : String → Group → Group
drop_device key g = record g {
  device_keys = filter (λ (k : String). not (str_eq k key)) g.device_keys;
}

holds_device : String → Group → Bool
holds_device key g = contains key g.device_keys

pub remove_device_from_groups : (ℕ → String) → String → File → File
unfolding drop_device holds_device
remove_device_from_groups str_of key file =
    if any (holds_device key) (load_groups file)
    then save_groups str_of (map (drop_device key) (load_groups file))
    else file
