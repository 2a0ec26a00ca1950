-- ===== src/Devices/Settings.antt =====
-- linien-gateway/app/device_config_store.py: the class DeviceConfigStore. The file is what json.loads
-- gives of it; the order of its keys is left out. A configuration is of a type that the caller chooses,
-- with Python's equality on it as a parameter. Copies keep the store's data from its callers.
use linien_multi_device.Prelude.{
  Bool, true, false, ◌||◌, Option, none, some, is_some, String, List, [], ◌∷◌, str_eq,
  if◌then◌else◌,
}
use linien_multi_device.Prelude.Assoc.{Assoc, lookup, insert, erase}

-- A value of the file's object: a configuration mapping, or anything else.
pub data Raw (V : Type 0) : Type 0 where
  other : Raw V
  mapping : Assoc V → Raw V

pub data File (V : Type 0) : Type 0 where
  missing unreadable not_an_object : File V
  object : Assoc (Raw V) → File V

pub record ConfigStore (V : Type 0) : Type 0 where
  pub data_of : Assoc (Assoc V)
  pub file : File V

-- How _write_to_disk_locked ends: it replaced the file, wrote to it directly, or raised.
pub data Disk : Type 0 where
  replaced written_directly write_raised : Disk

abbrev pub known_names : List String
known_names =
    "auto_lock_scan_settings" ∷ "lock_indicator_config" ∷ "auto_relock_config"
    ∷ "lock_acceptance_settings" ∷ []

abbrev pub is_member : String → List String → Bool
is_member name [] = false
is_member name (n ∷ ns) = str_eq n name || is_member name ns

module _ {V : Type 0} where
  abbrev cons_if : String → Option V → Assoc V → Assoc V
  cons_if name none rest = rest
  cons_if name (some v) rest = (name, v) ∷ rest

  -- The item of one device: the known names that the raw mapping has.
  unfoldable pub pick : List String → Assoc V → Assoc V
  pick [] raw = []
  pick (name ∷ names) raw = cons_if name (lookup name raw) (pick names raw)

  abbrev pub keep_item : String → Assoc V → Assoc (Assoc V) → Assoc (Assoc V)
  keep_item key [] rest = rest
  keep_item key (c ∷ cs) rest = (key, c ∷ cs) ∷ rest

  unfoldable pub load_items : Assoc (Raw V) → Assoc (Assoc V)
  unfolding pick
  load_items [] = []
  load_items ((key, other) ∷ rest) = load_items rest
  load_items ((key, mapping raw) ∷ rest) = keep_item key (pick known_names raw) (load_items rest)

  unfoldable pub load_from_disk : File V → Assoc (Assoc V)
  unfolding load_items
  load_from_disk (object raws) = load_items raws
  load_from_disk _ = []

  unfoldable pub init : File V → ConfigStore V
  unfolding load_from_disk
  init file = record { data_of = load_from_disk file; file = file }

  unfoldable pub as_raws : Assoc (Assoc V) → Assoc (Raw V)
  as_raws [] = []
  as_raws ((key, item) ∷ rest) = (key, mapping item) ∷ as_raws rest

  -- The file, and whether nothing was raised.
  unfoldable pub write_to_disk : Disk → ConfigStore V → ConfigStore V × Bool
  unfolding as_raws
  write_to_disk write_raised s = (s, false)
  write_to_disk _ s = (record s { file = object (as_raws s.data_of) }, true)

  abbrev pub item_or_empty : Option (Assoc V) → Assoc V
  item_or_empty none = []
  item_or_empty (some item) = item

  unfoldable pub get_device_configs : String → ConfigStore V → Assoc V
  get_device_configs key s = item_or_empty (lookup key s.data_of)

  unfoldable pub put_config : String → String → V → ConfigStore V → ConfigStore V
  unfolding get_device_configs
  put_config key name value s = record s {
    data_of = insert key (insert name value (get_device_configs key s)) s.data_of;
  }

  -- False where a KeyError or the disk's error is raised.
  unfoldable pub set_config : String → String → V → Disk → ConfigStore V → ConfigStore V × Bool
  unfolding put_config write_to_disk
  set_config key name value disk s =
      if is_member name known_names
      then write_to_disk disk (put_config key name value s)
      else (s, false)

  unfoldable pub remove_device : String → Disk → ConfigStore V → ConfigStore V × Bool
  unfolding write_to_disk
  remove_device key disk s =
      if is_some (lookup key s.data_of)
      then write_to_disk disk (record s { data_of = erase key s.data_of })
      else (s, true)

  module _ (same : Option V → V → Bool) where
    abbrev set_if_other : String → Option V → Assoc V × Bool → Assoc V × Bool
    set_if_other name none (parameters, changed) = (parameters, changed)
    set_if_other name (some v) (parameters, changed) =
        if same (lookup name parameters) v
        then (parameters, changed)
        else (insert name v parameters, true)

    -- The loop over the known names; `same` is `parameters.get(name) == value`.
    pub apply_names : List String → Assoc V → Assoc V × Bool → Assoc V × Bool
    apply_names [] payload result = result
    apply_names (name ∷ names) payload result =
        apply_names names payload (set_if_other name (lookup name payload) result)

    -- The device's parameters, and whether they were changed.
    pub apply_configs_to_device : String → ConfigStore V → Assoc V → Assoc V × Bool
    unfolding apply_names get_device_configs
    apply_configs_to_device key s parameters =
        apply_names known_names (get_device_configs key s) (parameters, false)
