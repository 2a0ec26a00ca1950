-- ===== src/Devices/Registry.antt =====
-- linien-gateway/app/session_registry.py: the class SessionRegistry. A session is content of a type that
-- the caller chooses; the locks that lock_for hands out are left out.
use linien_multi_device.Prelude.{
  ℕ, ◌+◌, Bool, true, false, Option, none, some, String, List, [], ◌∷◌, ◌≡◌, arith, str_eq, eq_iff,
  if◌then◌else◌,
}
use linien_multi_device.Prelude.Assoc.{Assoc, lookup, insert, erase, lookup-insert, lookup-erase}

-- The sessions, and how many the factory has made.
pub record Registry (A : Type 0) : Type 0 where
  pub sessions : Assoc A
  pub created : ℕ

pub data Call (A : Type 0) : Type 0 where
  create_call : String → A → Call A
  remove_call : String → Call A

module _ {A : Type 0} where
  pub get : String → Registry A → Option A
  get key r = lookup key r.sessions

  pub found_or_made : String → A → Option A → Registry A → Registry A × A
  found_or_made key fresh none r =
      (record r { sessions = insert key fresh r.sessions; created = r.created + 1 }, fresh)
  found_or_made key fresh (some a) r = (r, a)

  -- `fresh` is what the factory returns where it is called.
  pub get_or_create : String → A → Registry A → Registry A × A
  unfolding found_or_made
  get_or_create key fresh r = found_or_made key fresh (lookup key r.sessions) r

  pub remove : String → Registry A → Registry A × Option A
  remove key r = (record r { sessions = erase key r.sessions }, lookup key r.sessions)

  pub update_device {κ} : {B : Type κ} → String → (A → B) → Registry A → Option B
  update_device key update r = elim (lookup key r.sessions) [
    | none ↦ none
    | some a ↦ some (update a)
  ]

  unfoldable pub step : Call A → Registry A → Registry A
  step (create_call key fresh) r = let (r', _) = get_or_create key fresh r in r'
  step (remove_call key) r = let (r', _) = remove key r in r'

  unfoldable pub run : List (Call A) → Registry A → Registry A
  run [] r = r
  run (c ∷ cs) r = run cs (step c r)

  abbrev removes : String → List (Call A) → Bool
  removes key [] = false
  removes key (create_call _ _ ∷ cs) = removes key cs
  removes key (remove_call k ∷ cs) =
      let rest = removes key cs in if str_eq k key then true else rest

  step-lookup :
      (key : String) (c : Call A) (cs : List (Call A)) (a : A) (r : Registry A)
      → removes key (c ∷ cs) ≡ false
      → lookup key r.sessions ≡ some a
      → (lookup key (step c r).sessions ≡ some a) × (removes key cs ≡ false)
  unfolding step get_or_create remove
  step-lookup key (create_call k fresh) cs a r h e =
      ground (arith, e, eq_iff k key, lookup-insert k key fresh r.sessions)
  step-lookup key (remove_call k) cs a r h e =
      ground (arith, e, eq_iff k key, lookup-erase k key r.sessions)

  run-lookup :
      (key : String) (cs : List (Call A)) (a : A) (r : Registry A)
      → removes key cs ≡ false
      → lookup key r.sessions ≡ some a
      → lookup key (run cs r).sessions ≡ some a
  unfolding run
  run-lookup key [] a r h e = e
  run-lookup key (c ∷ cs) a r h e =
      let (found, rest) = step-lookup key c cs a r h e in run-lookup key cs a (step c r) rest found

  get_or_create-lookup :
      (key : String) (fresh : A) (r : Registry A)
      → let (r', session) = get_or_create key fresh r in lookup key r'.sessions ≡ some session
  unfolding get_or_create
  get_or_create-lookup key fresh r =
      ground (arith, eq_iff key key, lookup-insert key key fresh r.sessions)

  -- The session that get_or_create has returned for a key is the one that every later call for the key
  -- returns, without the factory, for as long as the key is not removed.
  pub run-get_or_create :
      (key : String) (fresh again : A) (cs : List (Call A)) (r : Registry A)
      → let (r', session) = get_or_create key fresh r in
        removes key cs ≡ false → get_or_create key again (run cs r') ≡ (run cs r', session)
  unfolding get_or_create
  run-get_or_create key fresh again cs r h =
      let (r', session) = get_or_create key fresh r in
      let kept = run-lookup key cs session r' h (get_or_create-lookup key fresh r) in
      ground (arith, kept)
