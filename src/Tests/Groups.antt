-- ===== src/Tests/Groups.antt =====
-- Concrete runs of linien-gateway/app/group_store.py.
use linien_multi_device.Prelude.{
  ℕ, zero, suc, ◌≤◌, true, false, some, String, List, [], ◌∷◌, ◌≡◌, arith, All, eq_iff, refl, sym,
  ap, ◌∙◌,
}
use Prim.Native.String.{[] as no_text, ◌∷◌ as char_then}
use linien_multi_device.Groups.{Group, File, save_groups, load_groups}
use linien_multi_device.Groups.Storage.{IsInjective, load-save}
use linien_multi_device.Groups.Reorder.{reorder, count, find, reorder-find}
use linien_multi_device.Groups.Members.{list_groups}
use linien_multi_device.Groups.Members.Current.{IsCurrent, list_groups-IsCurrent}

abbrev lab : Group
lab = record { key = "a"; name = "Lab"; device_keys = "d1" ∷ "d2" ∷ []; auto_include = true }

abbrev spare : Group
spare = record { key = "b"; name = "Spare"; device_keys = "d1" ∷ []; auto_include = false }

abbrev groups : List Group
groups = lab ∷ spare ∷ []

-- An index in strokes.
str_of : ℕ → String
str_of zero = ""
str_of (suc n) = char_then "1" (str_of n)

strokes : String → ℕ
strokes no_text = 0
strokes (char_then c s) = suc (strokes s)

strokes-str_of : (n : ℕ) → strokes (str_of n) ≡ n
unfolding strokes str_of
strokes-str_of zero = refl
strokes-str_of (suc n) = ap suc (strokes-str_of n)

str_of-IsInjective : IsInjective str_of
str_of-IsInjective i j h = sym (strokes-str_of i) ∙ ap strokes h ∙ strokes-str_of j

abbrev file : File
file = save_groups str_of groups

load-save_example : load_groups (save_groups str_of groups) ≡ groups
load-save_example = load-save str_of groups str_of-IsInjective

groups_unique : (key : String) → count key groups ≤ 1
groups_unique key = ground (arith, eq_iff "a" key, eq_iff "b" key, eq_iff "a" "b")

reorder-find_example :
    (count "a" (reorder ("b" ∷ "x" ∷ "b" ∷ []) groups) ≡ 1)
    × (find "a" (reorder ("b" ∷ "x" ∷ "b" ∷ []) groups) ≡ some lab)
reorder-find_example = reorder-find ("b" ∷ "x" ∷ "b" ∷ []) groups groups_unique "a"

list_groups-IsCurrent_example :
    All (IsCurrent ("d2" ∷ "d3" ∷ [])) (list_groups str_of "c" ("d2" ∷ "d3" ∷ []) file).1
list_groups-IsCurrent_example = list_groups-IsCurrent str_of "c" ("d2" ∷ "d3" ∷ []) file
