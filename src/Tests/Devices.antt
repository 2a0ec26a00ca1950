-- ===== src/Tests/Devices.antt =====
-- Concrete runs of linien-gateway/app/device_store.py, linien-gateway/app/device_config_store.py and
-- linien-gateway/app/session_registry.py.
use linien_multi_device.Prelude.{ℕ, ◌≡◌, refl, inl, none, some, List, [], ◌∷◌, ◌++◌, ap}
use linien_multi_device.Devices.{Device, Client, Store}
use linien_multi_device.Devices.Refinement.{
  Laws, Call, list_call, get_call, save_call, remove_call, run, spec_run, replace, without,
  run-spec_run,
}
use linien_multi_device.Devices.Settings.{object, replaced, init}
use linien_multi_device.Devices.Durability.{config_of}
use linien_multi_device.Devices.Reload as Reload
use linien_multi_device.Devices.Reload.{run-reload}
use linien_multi_device.Devices.Registry as Registry
use linien_multi_device.Devices.Registry.{get_or_create, run-get_or_create}

-- A file that is its list of devices.
abbrev client : Client ℕ (List (Device ℕ))
client = record {
  load = λ f. some f;
  add = λ d f. some (f ++ d ∷ []);
  update = λ d f. some (replace d f);
  delete = λ d f. some (without d.key f);
}

some_eq : (x y : List (Device ℕ)) → some x ≡ some y → x ≡ y
some_eq x y p = cc

client-Laws : Laws client
client-Laws = record {
  add_law = λ d f ds e h. (f ++ d ∷ [], (refl, ap (λ l. some (l ++ d ∷ [])) (some_eq f ds e)));
  update_law =
      λ d old f ds e h. (replace d f, (refl, ap (λ l. some (replace d l)) (some_eq f ds e)));
  delete_law =
      λ d f ds e. (without d.key f, (refl, ap (λ l. some (without d.key l)) (some_eq f ds e)));
}

abbrev device_a : Device ℕ
device_a = record { key = "a"; content = 1 }

abbrev calls : List (Call ℕ)
calls = list_call ∷ save_call device_a ∷ get_call "a" ∷ remove_call device_a ∷ list_call ∷ []

abbrev store : Store ℕ (List (Device ℕ))
store = record { cache = none; file = [] }

run-spec_run_example : run client calls store ≡ spec_run calls []
run-spec_run_example = run-spec_run client client-Laws calls store [] (refl, inl refl)

abbrev settings : List (Reload.Call ℕ)
settings =
    Reload.set_call "a" "auto_relock_config" 5 replaced ∷ Reload.remove_call "b" replaced ∷ []

run-reload_example :
    let s = Reload.run settings (init (object [])) in
    config_of "a" "auto_relock_config" (init s.file).data_of
    ≡ config_of "a" "auto_relock_config" s.data_of
run-reload_example = run-reload settings (object []) "a" "auto_relock_config" refl

abbrev registry : Registry.Registry ℕ
registry = record { sessions = []; created = 0 }

abbrev other_calls : List (Registry.Call ℕ)
other_calls = Registry.create_call "b" 3 ∷ Registry.remove_call "b" ∷ []
