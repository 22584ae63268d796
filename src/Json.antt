-- ===== src/Json.antt =====
-- JSON values as the console reads them back from storage. `JSON.parse` itself is an argument of the
-- definitions that call it: `none` where it throws. A number keeps its text.
use montlok_terminal.Prelude.{String, Bool, List, [], ◌∷◌, Option, none, some, string_eq}

mutual
  pub data Json : Type 0 where
    null : Json
    bool : Bool → Json
    number : String → Json
    string : String → Json
    array : Items → Json
    object : Fields → Json

  pub data Items : Type 0 where
    nil : Items
    cons : Json → Items → Items

  pub data Fields : Type 0 where
    end : Fields
    field : String → Json → Fields → Fields

-- The items of an array: `none` of anything else, as `Array.isArray` tests.
abbrev pub items : Items → List Json
items nil = []
items (cons j js) = j ∷ items js

abbrev pub array_items : Json → Option (List Json)
array_items (array js) = some (items js)
array_items _ = none

abbrev pub as_string : Json → Option String
as_string (string s) = some s
as_string _ = none

abbrev pub entries : Fields → List (String × Json)
entries end = []
entries (field k v fs) = (k, v) ∷ entries fs
