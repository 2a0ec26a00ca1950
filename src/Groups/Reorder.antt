-- ===== src/Groups/Reorder.antt =====
-- reorder_groups (linien-gateway/app/group_store.py) and what it keeps.
use linien_multi_device.Prelude.{
  ℕ, ◌+◌, ◌≤◌, Bool, true, false, not, ◌||◌, Option, none, some, is_some, String, List, [], ◌∷◌,
  ◌++◌, str_eq, if◌then◌else◌, ◌≡◌, arith, eq_iff, refl, if_intro,
}
use linien_multi_device.Groups.{Group, File, contains, load_groups, save_groups}

-- `by_key.get(key)`: of two groups with one key the later one.
pub by_key : String → List Group → Option Group
by_key key [] = none
by_key key (g ∷ rest) =
    let later = by_key key rest in
    if is_some later then later else if str_eq g.key key then some g else none

place : Option Group → List Group → List Group
place none ordered = ordered
place (some g) ordered = g ∷ ordered

-- The loop over the requested keys, with the set of the keys seen.
pub requested : List Group → List String → List String → List Group
unfolding place
requested groups [] seen = []
requested groups (key ∷ keys) seen =
    let skipped = requested groups keys seen in
    let placed = place (by_key key groups) (requested groups keys (key ∷ seen)) in
    if contains key seen || not (is_some (by_key key groups)) then skipped else placed

pub has_key : String → List Group → Bool
has_key key [] = false
has_key key (g ∷ rest) = str_eq g.key key || has_key key rest

-- The loop over the groups that are left; `seen` holds the keys of the ordered ones.
pub left_over : List Group → List Group → List Group
unfolding has_key
left_over ordered [] = []
left_over ordered (g ∷ rest) =
    let later = left_over ordered rest in if has_key g.key ordered then later else g ∷ later

pub reorder : List String → List Group → List Group
unfolding requested left_over
reorder keys groups = let ordered = requested groups keys [] in ordered ++ left_over ordered groups

pub reorder_groups : (ℕ → String) → List String → File → File × List Group
unfolding reorder
reorder_groups str_of keys file =
    let ordered = reorder keys (load_groups file) in (save_groups str_of ordered, ordered)

-- How many groups have a key.
abbrev pub count : String → List Group → ℕ
count key [] = 0
count key (g ∷ rest) = (if str_eq g.key key then 1 else 0) + count key rest

-- The first group of a key, as the handlers find it.
abbrev pub find : String → List Group → Option Group
find key [] = none
find key (g ∷ rest) = if str_eq g.key key then some g else find key rest

has_key-count :
    (key : String) (groups : List Group)
    → (has_key key groups ≡ false → count key groups ≡ 0)
      × (has_key key groups ≡ true → 1 ≤ count key groups)
unfolding has_key
has_key-count key [] = ground arith
has_key-count key (g ∷ rest) = ground (arith, has_key-count key rest)

find-has_key : (key : String) (groups : List Group) → is_some (find key groups) ≡ has_key key groups
unfolding has_key
find-has_key key [] = refl
find-has_key key (g ∷ rest) = ground (arith, find-has_key key rest)

by_key-none : (key : String) (groups : List Group) → count key groups ≡ 0 → by_key key groups ≡ none
unfolding by_key
by_key-none key [] h = refl
by_key-none key (g ∷ rest) h = ground (arith, by_key-none key rest)

by_key-find :
    (key : String) (groups : List Group)
    → count key groups ≤ 1
    → by_key key groups ≡ find key groups
unfolding by_key
by_key-find key [] h = refl
by_key-find key (g ∷ rest) h = ground (arith, by_key-find key rest, by_key-none key rest)

by_key-key :
    (key : String) (groups : List Group) (g : Group) → by_key key groups ≡ some g → g.key ≡ key
unfolding by_key
by_key-key key [] g h = ground arith
by_key-key key (x ∷ rest) g h = ground (arith, eq_iff x.key key, by_key-key key rest g)

-- What the first loop leaves for one key: nothing for a key that was seen, else at most the group
-- that `by_key` gives.
record IsPlaced (key : String) (groups : List Group) (seen : List String) (ordered : List Group)
    : Type 0 where
  at_most : count key ordered ≤ 1
  unseen : contains key seen ≡ true → count key ordered ≡ 0
  found : count key ordered ≡ 1 → find key ordered ≡ by_key key groups
  missing : count key ordered ≡ 0 → find key ordered ≡ none

place-IsPlaced :
    (key k : String) (groups : List Group) (seen : List String) (ordered : List Group)
    (o : Option Group)
    → by_key k groups ≡ o
    → contains k seen ≡ false
    → IsPlaced key groups (k ∷ seen) ordered
    → IsPlaced key groups seen (place o ordered)
unfolding contains place
place-IsPlaced key k groups seen ordered none h n i = record {
  at_most = i.at_most;
  unseen = λ c. ground (arith, i.unseen);
  found = i.found;
  missing = i.missing;
}
place-IsPlaced key k groups seen ordered (some g) h n i = record {
  at_most =
      ground (arith, eq_iff g.key key, eq_iff k key, by_key-key k groups g h, i.unseen, i.at_most);
  unseen = λ c. ground (arith, eq_iff g.key key, eq_iff k key, by_key-key k groups g h, i.unseen);
  found = λ c. ground (arith, eq_iff g.key key, eq_iff k key, by_key-key k groups g h, i.found);
  missing = λ c. ground (arith, eq_iff g.key key, eq_iff k key, by_key-key k groups g h, i.missing);
}

requested-IsPlaced :
    (key : String) (groups : List Group) (keys seen : List String)
    → IsPlaced key groups seen (requested groups keys seen)
unfolding requested
requested-IsPlaced key groups [] seen = ground arith
requested-IsPlaced key groups (k ∷ keys) seen =
    if_intro (IsPlaced key groups seen) (contains k seen || not (is_some (by_key k groups))) _ _
      (λ t. requested-IsPlaced key groups keys seen)
      (λ f.
        place-IsPlaced key k groups seen (requested groups keys (k ∷ seen)) (by_key k groups) refl
          (ground arith) (requested-IsPlaced key groups keys (k ∷ seen)))

count-left_over :
    (key : String) (ordered groups : List Group)
    → count key (left_over ordered groups) ≡ (if has_key key ordered then 0 else count key groups)
unfolding left_over
count-left_over key ordered [] = ground arith
count-left_over key ordered (g ∷ rest) =
    ground (arith, eq_iff g.key key, count-left_over key ordered rest)

find-left_over :
    (key : String) (ordered groups : List Group)
    → find key (left_over ordered groups) ≡ (if has_key key ordered then none else find key groups)
unfolding left_over
find-left_over key ordered [] = ground arith
find-left_over key ordered (g ∷ rest) =
    ground (arith, eq_iff g.key key, find-left_over key ordered rest)

count-append :
    (key : String) (xs ys : List Group) → count key (xs ++ ys) ≡ count key xs + count key ys
count-append key [] ys = omega arith
count-append key (x ∷ xs) ys = ground (arith, count-append key xs ys)

find-append :
    (key : String) (xs ys : List Group)
    → find key (xs ++ ys) ≡ (if has_key key xs then find key xs else find key ys)
unfolding has_key
find-append key [] ys = refl
find-append key (x ∷ xs) ys = ground (arith, find-append key xs ys)

module _ (key : String) (groups ordered : List Group) (unique : count key groups ≤ 1)
    (i : IsPlaced key groups [] ordered) where
  whole-count : count key (ordered ++ left_over ordered groups) ≡ count key groups
  whole-count = ground (
    arith,
    count-append key ordered (left_over ordered groups),
    count-left_over key ordered groups,
    i.at_most,
    i.found,
    by_key-find key groups,
    has_key-count key ordered,
    has_key-count key groups,
    find-has_key key ordered,
    find-has_key key groups,
  )

  whole-find : find key (ordered ++ left_over ordered groups) ≡ find key groups
  whole-find = ground (
    arith,
    find-append key ordered (left_over ordered groups),
    find-left_over key ordered groups,
    i.at_most,
    i.found,
    by_key-find key groups,
    has_key-count key ordered,
  )

-- Where no two groups have one key, a reorder neither loses, doubles nor changes a group, whatever
-- keys are requested: for each key there are as many groups as before, and the group of the key is
-- the one of before.
pub reorder-find :
    (keys : List String) (groups : List Group)
    → ((key : String) → count key groups ≤ 1)
    → (key : String)
    → (count key (reorder keys groups) ≡ count key groups)
      × (find key (reorder keys groups) ≡ find key groups)
unfolding reorder
reorder-find keys groups unique key =
    let i = requested-IsPlaced key groups keys [] in
    (
      whole-count key groups (requested groups keys []) (unique key) i,
      whole-find key groups (requested groups keys []) (unique key) i,
    )
