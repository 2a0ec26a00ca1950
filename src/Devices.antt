-- ===== src/Devices.antt =====
-- The device list behind linien-gateway/app/device_store.py and the sessions of
-- linien-gateway/app/session_registry.py; the settings of linien-gateway/app/device_config_store.py are in
-- the child Settings. devices.json and the functions of linien_client.device that read and rewrite it
-- are parameters; the locks make each operation one step.
pub mod Refinement
pub mod Settings
pub mod Durability
pub mod Registry
pub mod Reload
use linien_multi_device.Prelude.{
  Bool, true, false, Option, none, some, String, List, [], ◌∷◌, ◌++◌, str_eq, if◌then◌else◌,
}

-- A device: its key, and content of a type that the caller chooses.
pub record Device (A : Type 0) : Type 0 where
  pub key : String
  pub content : A

-- linien_client.device: `load` is none where load_device_list raises a JSONDecodeError or an OSError,
-- the others are none where they raise.
pub record Client (A : Type 0) (F : Type 0) : Type 0 where
  pub load : F → Option (List (Device A))
  pub add : Device A → F → Option F
  pub update : Device A → F → Option F
  pub delete : Device A → F → Option F

-- The module's `_cache`, and the file.
pub record Store (A : Type 0) (F : Type 0) : Type 0 where
  pub cache : Option (List (Device A))
  pub file : F

module _ {A : Type 0} where
  abbrev pub or_empty : Option (List (Device A)) → List (Device A)
  or_empty none = []
  or_empty (some ds) = ds

  pub find_device : String → List (Device A) → Option (Device A)
  find_device key [] = none
  find_device key (d ∷ ds) = if str_eq d.key key then some d else find_device key ds

-- The file's list, or what the cache has where the file cannot be read.
abbrev pub list_or :
    {A : Type 0} → Option (List (Device A)) → Option (List (Device A)) → List (Device A)
list_or (some ds) cache = ds
list_or none cache = or_empty cache

module _ {A F : Type 0} (client : Client A F) where
  pub safe_load : Store A F → List (Device A)
  safe_load s = list_or (client.load s.file) s.cache

  abbrev cached_or_loaded : Option (List (Device A)) → Store A F → Store A F × List (Device A)
  cached_or_loaded (some ds) s = (s, ds)
  cached_or_loaded none s = let ds = safe_load s in (record s { cache = some ds }, ds)

  pub list_devices : Store A F → Store A F × List (Device A)
  unfolding safe_load
  list_devices s = cached_or_loaded s.cache s

  pub get_device : String → Store A F → Store A F × Option (Device A)
  unfolding list_devices find_device
  get_device key s = let (s', ds) = list_devices s in (s', find_device key ds)

  pub write : Option (Device A) → Device A → F → Option F
  write none d file = client.add d file
  write (some _) d file = client.update d file

  -- What a write leaves, and whether it was made: where it raises, the store is as it was.
  abbrev pub written : Option F → Store A F → Store A F × Bool
  written none s = (s, false)
  written (some file) s = (record { cache = none; file = file }, true)

  pub save_device : Device A → Store A F → Store A F × Bool
  unfolding safe_load find_device write
  save_device d s = written (write (find_device d.key (safe_load s)) d s.file) s

  pub remove_device : Device A → Store A F → Store A F × Bool
  remove_device d s = written (client.delete d s.file) s
