-- ===== src/Groups.antt =====
-- linien-gateway/app/group_store.py: the groups of devices in groups.json. The file is an argument and a
-- result of each operation; the lock makes each of them one step. A new group's key, which uuid4
-- makes, is an argument.
pub mod Storage
pub mod Members
pub mod Reorder
use linien_multi_device.Prelude.{
  ℕ, suc, ℤ, pos, Bool, true, false, not, ◌&&◌, ◌||◌, Option, none, some, is_some, String, List, [],
  ◌∷◌, ◌++◌, str_eq, if◌then◌else◌, filter, map, ◌==◌, any,
}

-- A value that json.loads returns; a number is a finite one, at a fixed scale.
mutual
  pub data Json : Type 0 where
    null : Json
    boolean : Bool → Json
    number : ℤ → Json
    text : String → Json
    array : Items → Json
    object : Fields → Json

  pub data Items : Type 0 where
    nil : Items
    item : Json → Items → Items

  pub data Fields : Type 0 where
    empty : Fields
    field : String → Json → Fields → Fields

-- What reading groups.json and json.loads of it come to.
pub data File : Type 0 where
  missing unreadable malformed : File
  parsed : Json → File

pub record Group : Type 0 where
  pub key : String
  pub name : String
  pub device_keys : List String
  pub auto_include : Bool

-- `item.get(name)`
pub get : String → Fields → Option Json
get name empty = none
get name (field k v rest) = if str_eq k name then some v else get name rest

items_of : Items → List Json
items_of nil = []
items_of (item v rest) = v ∷ items_of rest

values_of : Fields → List Json
values_of empty = []
values_of (field k v rest) = v ∷ values_of rest

pub candidates : Json → List Json
unfolding items_of values_of
candidates (array items) = items_of items
candidates (object fields) = values_of fields
candidates _ = []

texts_of : Items → List String
texts_of nil = []
texts_of (item (text s) rest) = s ∷ texts_of rest
texts_of (item _ rest) = texts_of rest

device_keys_of : Option Json → List String
unfolding texts_of
device_keys_of (some (array items)) = texts_of items
device_keys_of _ = []

is_nonempty : Items → Bool
is_nonempty nil = false
is_nonempty (item v rest) = true

has_fields : Fields → Bool
has_fields empty = false
has_fields (field k v rest) = true

nonzero : ℤ → Bool
nonzero (pos n) = not (n == 0)
nonzero _ = true

-- `bool(value)`, False where there is none.
truth : Option Json → Bool
unfolding is_nonempty has_fields nonzero
truth (some (boolean b)) = b
truth (some (number n)) = nonzero n
truth (some (text s)) = not (str_eq s "")
truth (some (array items)) = is_nonempty items
truth (some (object fields)) = has_fields fields
truth _ = false

build_group : Option Json → Option Json → Fields → Option Group
unfolding device_keys_of truth
build_group (some (text key)) (some (text name)) fields = some (record {
  key = key;
  name = name;
  device_keys = device_keys_of (get "device_keys" fields);
  auto_include = truth (get "auto_include" fields);
})
build_group _ _ fields = none

-- One turn of the loop of load_groups: an entry without a valid key and name is skipped.
pub group_of : Json → Option Group
unfolding build_group get
group_of (object fields) = build_group (get "key" fields) (get "name" fields) fields
group_of _ = none

prepend : Option Group → List Group → List Group
prepend none groups = groups
prepend (some group) groups = group ∷ groups

pub read_groups : List Json → List Group
unfolding prepend group_of
read_groups [] = []
read_groups (v ∷ rest) = prepend (group_of v) (read_groups rest)

pub load_groups : File → List Group
unfolding candidates read_groups
load_groups (parsed v) = read_groups (candidates v)
load_groups _ = []

text_items : List String → Items
text_items [] = nil
text_items (s ∷ rest) = item (text s) (text_items rest)

-- asdict(group), as JSON.
pub group_json : Group → Json
unfolding text_items
group_json g = object (
    field "key" (text g.key) (
      field "name" (text g.name) (
        field "device_keys" (array (text_items g.device_keys))
          (field "auto_include" (boolean g.auto_include) empty))))

-- The payload of save_groups; `str_of` writes an index as the text that json.dumps makes of it.
number_groups : (ℕ → String) → ℕ → List Group → Fields
unfolding group_json
number_groups str_of i [] = empty
number_groups str_of i (g ∷ rest) =
    field (str_of i) (group_json g) (number_groups str_of (suc i) rest)

-- json.loads makes a dict: of the fields with one name the last value counts, at the first one's place.
pub drop_field : String → Fields → Fields
drop_field name empty = empty
drop_field name (field k v rest) =
    let later = drop_field name rest in if str_eq k name then later else field k v later

abbrev pub value_or : Json → Option Json → Json
value_or v none = v
value_or v (some w) = w

pub as_dict : Fields → Fields
unfolding get drop_field
as_dict empty = empty
as_dict (field k v rest) =
    let later = as_dict rest in field k (value_or v (get k later)) (drop_field k later)

-- What save_groups writes, as it is read again.
pub save_groups : (ℕ → String) → List Group → File
unfolding number_groups as_dict
save_groups str_of groups = parsed (object (as_dict (number_groups str_of 0 groups)))

pub contains : String → List String → Bool
contains key [] = false
contains key (k ∷ keys) = str_eq k key || contains key keys

-- The loop of update_group: the first group of the key changes.
pub set_group : Option String → Option (List String) → Option Bool → Group → Group
set_group name device_keys auto_include g = record g {
  name = elim name [ some n ↦ n | none ↦ g.name ];
  device_keys = elim device_keys [ some ks ↦ ks | none ↦ g.device_keys ];
  auto_include = elim auto_include [ some b ↦ b | none ↦ g.auto_include ];
}

pub update_first : String → (Group → Group) → List Group → Option (List Group × Group)
update_first key change [] = none
update_first key change (g ∷ rest) =
    let later = update_first key change rest in
    if str_eq g.key key
    then some (change g ∷ rest, change g)
    else elim later [ some (groups, found) ↦ some (g ∷ groups, found) | none ↦ none ]

-- `none` is the KeyError; the file stays as it is then.
pub update_group :
    (ℕ → String)
    → String
    → Option String
    → Option (List String)
    → Option Bool
    → File
    → File × Option Group
unfolding update_first set_group load_groups save_groups
update_group str_of key name device_keys auto_include file =
    elim (update_first key (set_group name device_keys auto_include) (load_groups file)) [
      | some (groups, found) ↦ (save_groups str_of groups, some found)
      | none ↦ (file, none)
    ]

pub create_group : (ℕ → String) → String → String → List String → Bool → File → File × Group
unfolding load_groups save_groups
create_group str_of key name device_keys auto_include file =
    let group : Group = record {
      key = key;
      name = name;
      device_keys = device_keys;
      auto_include = auto_include;
    } in
    (save_groups str_of (load_groups file ++ group ∷ []), group)

pub delete_group : (ℕ → String) → String → File → File
unfolding load_groups save_groups
delete_group str_of key file =
    save_groups str_of (filter (λ (g : Group). not (str_eq g.key key)) (load_groups file))
