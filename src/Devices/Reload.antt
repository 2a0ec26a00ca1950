-- ===== src/Devices/Reload.antt =====
-- linien-gateway/app/device_config_store.py: a gateway that loads the settings again.
use linien_multi_device.Prelude.{
  Bool, true, false, ◌&&◌, is_some, String, List, [], ◌∷◌, ◌≡◌, ◌≢◌, refl, arith, if_intro,
}
use linien_multi_device.Prelude.Assoc.{lookup, insert, erase}
use linien_multi_device.Devices.Settings.{
  File, object, ConfigStore, Disk, replaced, written_directly, write_raised, known_names, is_member,
  load_from_disk, init, write_to_disk, item_or_empty, get_device_configs, put_config, set_config,
  remove_device,
}
use linien_multi_device.Devices.Durability.{
  config_of, is_known, load_items-as_raws, insert-is_known, erase-is_known, insert-all_known,
  lookup-all_known, load_items-is_known,
}

pub data Call (V : Type 0) : Type 0 where
  set_call : String → String → V → Disk → Call V
  remove_call : String → Disk → Call V

abbrev pub writes : Disk → Bool
writes write_raised = false
writes _ = true

raised_writes : writes write_raised ≢ true
raised_writes p = cc

module _ {V : Type 0} where
  unfoldable pub step : Call V → ConfigStore V → ConfigStore V
  step (set_call key name value disk) s = let (s', _) = set_config key name value disk s in s'
  step (remove_call key disk) s = let (s', _) = remove_device key disk s in s'

  unfoldable pub run : List (Call V) → ConfigStore V → ConfigStore V
  run [] s = s
  run (c ∷ cs) s = run cs (step c s)

  abbrev pub all_written : List (Call V) → Bool
  all_written [] = true
  all_written (set_call _ _ _ disk ∷ cs) = writes disk && all_written cs
  all_written (remove_call _ disk ∷ cs) = writes disk && all_written cs

  -- The configurations of the store are those that loading its file gives.
  pub record IsDurable (s : ConfigStore V) : Type 0 where
    pub known : is_known s.data_of ≡ true
    pub same :
        (key name : String)
        → config_of key name (load_from_disk s.file) ≡ config_of key name s.data_of

  write_to_disk-IsDurable :
      (disk : Disk) (s : ConfigStore V)
      → writes disk ≡ true
      → is_known s.data_of ≡ true
      → let (s', _) = write_to_disk disk s in IsDurable s'
  unfolding write_to_disk load_from_disk
  write_to_disk-IsDurable replaced s w h = record {
    known = h;
    same = λ key name. load_items-as_raws key name s.data_of h;
  }
  write_to_disk-IsDurable written_directly s w h = record {
    known = h;
    same = λ key name. load_items-as_raws key name s.data_of h;
  }
  write_to_disk-IsDurable write_raised s w h = absurd (raised_writes w)

  put_config-is_known :
      (key name : String) (value : V) (s : ConfigStore V)
      → is_member name known_names ≡ true
      → is_known s.data_of ≡ true
      → is_known (put_config key name value s).data_of ≡ true
  unfolding put_config get_device_configs
  put_config-is_known key name value s m h =
      let item = item_or_empty (lookup key s.data_of) in
      let (all, filled) = insert-all_known name value item m (lookup-all_known key s.data_of h) in
      insert-is_known key (insert name value item) s.data_of (ground (arith, all, filled)) h

  abbrev Result : ConfigStore V × Bool → Type 0
  Result (s, _) = IsDurable s

  set_config-IsDurable :
      (key name : String) (value : V) (disk : Disk) (s : ConfigStore V)
      → writes disk ≡ true
      → IsDurable s
      → Result (set_config key name value disk s)
  unfolding set_config
  set_config-IsDurable key name value disk s w h =
      if_intro Result (is_member name known_names) _ _
        (λ m.
          write_to_disk-IsDurable disk (put_config key name value s) w
            (put_config-is_known key name value s m h.known))
        (λ _. h)

  remove_device-IsDurable :
      (key : String) (disk : Disk) (s : ConfigStore V)
      → writes disk ≡ true
      → IsDurable s
      → Result (remove_device key disk s)
  unfolding remove_device
  remove_device-IsDurable key disk s w h =
      if_intro Result (is_some (lookup key s.data_of)) _ _
        (λ _.
          write_to_disk-IsDurable disk (record s { data_of = erase key s.data_of }) w
            (erase-is_known key s.data_of h.known))
        (λ _. h)

  run-IsDurable :
      (cs : List (Call V)) (s : ConfigStore V)
      → all_written cs ≡ true
      → IsDurable s
      → IsDurable (run cs s)
  unfolding run step
  run-IsDurable [] s w h = h
  run-IsDurable (set_call key name value disk ∷ cs) s w h =
      let (s', _) = set_config key name value disk s in
      run-IsDurable cs s' (ground arith)
        (set_config-IsDurable key name value disk s (ground arith) h)
  run-IsDurable (remove_call key disk ∷ cs) s w h =
      let (s', _) = remove_device key disk s in
      run-IsDurable cs s' (ground arith) (remove_device-IsDurable key disk s (ground arith) h)

  load_from_disk-is_known : (file : File V) → is_known (load_from_disk file) ≡ true
  unfolding load_from_disk
  load_from_disk-is_known (object raws) = load_items-is_known raws
  load_from_disk-is_known File.missing = refl
  load_from_disk-is_known File.unreadable = refl
  load_from_disk-is_known File.not_an_object = refl

  -- After any sequence of settings and removals whose writes all succeed, started from any file, a
  -- gateway that loads the file again has every configuration that the store holds, and no other.
  pub run-reload :
      (cs : List (Call V)) (file : File V) (key name : String)
      → all_written cs ≡ true
      → let s = run cs (init file) in
        config_of key name (init s.file).data_of ≡ config_of key name s.data_of
  unfolding init
  run-reload cs file key name w =
      let start : IsDurable (init file) = record {
        known = load_from_disk-is_known file;
        same = λ k n. refl;
      } in
      let durable = run-IsDurable cs (init file) w start in durable.same key name
