-- ===== src/Api/Analyses/Document.antt =====
-- JSON values as the client receives them. A number is a natural number: of an analysis only its type
-- is tested, and a problem's status is one.
-- The keys of an object are distinct, as `JSON.parse` leaves them.
use full_stack_resume.Common.{
  ℕ, ◌+◌, String, Bool, true, false, Option, none, some, List, [], ◌∷◌, ◌==◌, if◌then◌else◌,
}
use full_stack_resume.Common.Text.{decimal}

mutual
  pub data Json : Type 0 where
    array : Entries → Json
    object : Fields → Json
    text : String → Json
    number : ℕ → Json
    boolean : Bool → Json
    null : Json

  pub data Fields : Type 0 where
    no_fields : Fields
    with_field : (name : String) (value : Json) (later : Fields) → Fields

  pub data Entries : Type 0 where
    no_entries : Entries
    with_entry : (first : Json) (later : Entries) → Entries

-- The items of an array; a value that is no array has none to read.
abbrev pub entries_of : Entries → List Json
entries_of (with_entry first later) = first ∷ entries_of later
entries_of no_entries = []

abbrev pub array_items : Option Json → List Json
array_items (some (array vs)) = entries_of vs
array_items _ = []

-- `isRecord`: arrays are objects too
abbrev pub is_record : Json → Bool
is_record (array vs) = true
is_record (object ps) = true
is_record _ = false

abbrev find_prop : String → Fields → Option Json
find_prop k no_fields = none
find_prop k (with_field j v ps) = let rest = find_prop k ps in if j == k then some v else rest

-- `value.key`, `none` where it is undefined
abbrev pub property : String → Json → Option Json
property k (object ps) = find_prop k ps
property k _ = none

-- `typeof value === "string"`
abbrev pub text_value : Option Json → Option String
text_value (some (text s)) = some s
text_value _ = none

-- a number, where the value is one
abbrev pub number_value : Option Json → Option ℕ
number_value (some (number n)) = some n
number_value _ = none

abbrev prop_names : Fields → List String
prop_names no_fields = []
prop_names (with_field k v ps) = k ∷ prop_names ps

abbrev index_names : ℕ → Entries → List String
index_names i no_entries = []
index_names i (with_entry v vs) = decimal i ∷ index_names (i + 1) vs

-- `Object.keys(value)`
abbrev pub keys : Json → List String
keys (object ps) = prop_names ps
keys (array vs) = index_names 0 vs
keys _ = []
