-- ===== src/Payload.antt =====
-- The values of a JSON payload as the settings classes of linien-gateway/app read them: the helpers
-- _as_bool, _as_float and _as_int, which auto_relock.py and lock_indicator.py declare alike.
-- A number is a finite one, in millionths.
use linien_multi_device.Prelude.{
  ℕ, ◌+◌, ◌*◌, ◌/◌, ◌%◌, ℤ, pos, negsuc, sub_ℕ, suc, Bool, true, false, not, ◌||◌, Option, none,
  some, String, List, [], ◌∷◌, ltb, ◌==◌, str_eq, if◌then◌else◌, ◌≡◌, arith,
}

pub data Value : Type 0 where
  null other : Value
  boolean : Bool → Value
  text : String → Value
  number : ℤ → Value

-- What the helpers take from Python: `s.strip().lower()`, and `float(s)` where it succeeds.
pub record PyText : Type 0 where
  pub strip_lower : String → String
  pub float_of : String → Option ℤ

abbrev pub million : ℕ
million = 1000000

is_zero : ℤ → Bool
is_zero (pos n) = n == 0
is_zero (negsuc n) = false

unfoldable pub as_bool : PyText → Value → Bool → Bool
unfolding is_zero
as_bool py (boolean b) default = b
as_bool py (text s) default =
    let lowered = py.strip_lower s in
    if str_eq lowered "1" || str_eq lowered "true" || str_eq lowered "yes" || str_eq lowered "on"
    then true
    else if str_eq lowered "0"
        || str_eq lowered "false"
        || str_eq lowered "no"
        || str_eq lowered "off"
    then false
    else default
as_bool py (number n) default = not (is_zero n)
as_bool py _ default = default

-- `float(value)`, where it raises neither TypeError nor ValueError.
unfoldable pub float_of_value : PyText → Value → Option ℤ
float_of_value py (boolean true) = some (pos million)
float_of_value py (boolean false) = some (pos 0)
float_of_value py (text s) = py.float_of s
float_of_value py (number n) = some n
float_of_value py _ = none

abbrev or_default : Option ℤ → ℤ → ℤ
or_default none default = default
or_default (some n) default = n

unfoldable pub as_float : PyText → Value → ℤ → ℤ
unfolding float_of_value
as_float py value default = or_default (float_of_value py value) default

-- Python's `round` on a number of millionths: to the nearest integer, a half to the even one.
unfoldable pub round_half_even : ℕ → ℕ
round_half_even n =
    let q = n / million in
    let r = n % million in
    if ltb (2 * r) million then q else if ltb million (2 * r) then q + 1 else q + q % 2

unfoldable pub round_int : ℤ → ℤ
unfolding round_half_even
round_int (pos n) = pos (round_half_even n)
round_int (negsuc n) = sub_ℕ 0 (round_half_even (suc n))

abbrev round_or_default : Option ℤ → ℤ → ℤ
round_or_default none default = default
round_or_default (some n) default = round_int n

unfoldable pub as_int : PyText → Value → ℤ → ℤ
unfolding float_of_value round_int
as_int py value default = round_or_default (float_of_value py value) default

abbrev pub Mapping : Type 0
Mapping = List (String × Value)

-- `payload.get(key)`
unfoldable pub get : String → Mapping → Value
get key [] = null
get key ((k, v) ∷ rest) = if str_eq k key then v else get key rest

-- `{**payload, key: value}`
unfoldable pub put : String → Value → Mapping → Mapping
put key value [] = (key, value) ∷ []
put key value ((k, v) ∷ rest) =
    if str_eq k key then (k, value) ∷ rest else (k, v) ∷ put key value rest

-- A whole number of units is rounded to itself.
pub round_int-whole : (n : ℕ) → round_int (pos (n * million)) ≡ pos n
unfolding round_int
round_int-whole n = ground arith
