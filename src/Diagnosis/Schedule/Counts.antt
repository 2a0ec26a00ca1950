-- ===== src/Diagnosis/Schedule/Counts.antt =====
-- How often a key stands in the sets and the heap of the scheduler (linien-gateway/app/diagnosis.py).
use linien_multi_device.Prelude.{
  ℕ, ◌+◌, ◌-◌, false, String, List, [], ◌∷◌, ◌≡◌, refl, arith, str_eq, eq_iff, if◌then◌else◌,
}
use linien_multi_device.Diagnosis.Schedule.{Entry, member, add, discard, push, remove_one}

abbrev pub times : String → List String → ℕ
times key [] = 0
times key (k ∷ keys) = (if str_eq k key then 1 else 0) + times key keys

abbrev pub times_due : String → List Entry → ℕ
times_due key [] = 0
times_due key (e ∷ heap) = (if str_eq e.key key then 1 else 0) + times_due key heap

pub member-times :
    (key : String) (keys : List String) → member key keys ≡ false → times key keys ≡ 0
unfolding member
member-times key [] h = refl
member-times key (k ∷ keys) h = ground (arith, member-times key keys)

pub times-member :
    (key : String) (keys : List String) → times key keys ≡ 0 → member key keys ≡ false
unfolding member
times-member key [] h = refl
times-member key (k ∷ keys) h = ground (arith, times-member key keys)

pub times-add :
    (j key : String) (keys : List String)
    → times key keys ≡ 0
    → times j (add key keys) ≡ (if str_eq key j then 1 else 0) + times j keys
unfolding add
times-add j key keys h = ground (arith, times-member key keys)

pub times-discard :
    (j key : String) (keys : List String)
    → times j (discard key keys) ≡ (if str_eq key j then 0 else times j keys)
unfolding discard
times-discard j key [] = ground arith
times-discard j key (k ∷ keys) =
    ground (arith, eq_iff k key, eq_iff key j, eq_iff k j, times-discard j key keys)

pub times-remove_one :
    (j key : String) (keys : List String)
    → times j (remove_one key keys) ≡ times j keys - (if str_eq key j then 1 else 0)
unfolding remove_one
times-remove_one j key [] = ground arith
times-remove_one j key (k ∷ keys) =
    ground (arith, eq_iff k key, eq_iff key j, eq_iff k j, times-remove_one j key keys)

pub times_due-push :
    (j : String) (e : Entry) (heap : List Entry)
    → times_due j (push e heap) ≡ (if str_eq e.key j then 1 else 0) + times_due j heap
unfolding push
times_due-push j e [] = ground arith
times_due-push j e (x ∷ heap) = ground (arith, times_due-push j e heap)
