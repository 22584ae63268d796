-- ===== src/Selection/Storage.antt =====
-- apps/web/src/operator/selectionStorage.ts: reading the saved selection.
-- `JSON.parse` is the argument `parse`. The keys of an object are distinct.
use montlok_terminal.Prelude.{
  ℕ, ◌+◌, String, Bool, not, ◌&&◌, List, [], ◌∷◌, Option, none, some, if◌then◌else◌, ◌==◌,
  string_eq, includes, get_or,
}
use montlok_terminal.Prelude.Decimal.{decimal}
use montlok_terminal.JsMap.{get, set}
use montlok_terminal.Json.{Json, array, object, items, entries, as_string}

pub record RunSelection : Type 0 where
  pub selected_group : String
  pub selected_runs : List (String × String)

-- `Object.entries` of an array: the items under their indices
abbrev indexed : ℕ → List Json → List (String × Json)
indexed i [] = []
indexed i (j ∷ js) = (decimal i, j) ∷ indexed (i + 1) js

-- `Object.entries`, of a value whose `typeof` is `object`; nothing of any other
abbrev pub entries_of : Json → List (String × Json)
entries_of (object fields) = entries fields
entries_of (array js) = indexed 0 (items js)
entries_of _ = []

abbrev pub reserved_keys : List String
reserved_keys = "__proto__" ∷ "constructor" ∷ "prototype" ∷ []

abbrev pub is_kept : String → String → Bool
is_kept group run = not (run == "") && not (includes reserved_keys group)

unfoldable pub runs_onto : List (String × String) → List (String × Json) → List (String × String)
runs_onto runs [] = runs
runs_onto runs ((group, value) ∷ rest) = elim (as_string value) [
  | none ↦ runs_onto runs rest
  | some run ↦ runs_onto (if is_kept group run then set runs group run else runs) rest
]

abbrev field_of : Json → String → Option Json
field_of (object fields) key = get (entries fields) key
field_of _ key = none

abbrev pub group_of : Json → Option String
group_of saved = elim (field_of saved "selectedGroup") [ none ↦ none | some j ↦ as_string j ]

abbrev pub runs_field : Json → Option Json
runs_field saved = field_of saved "selectedRuns"

unfoldable pub read_selection : (String → Option Json) → Option String → Option RunSelection
read_selection parse raw =
    let text = get_or raw "" in
    elim (parse (if text == "" then "null" else text)) [
      | none ↦ none
      | some saved ↦ elim (group_of saved) [
        | none ↦ none
        | some group ↦ some (record {
          selected_group = group;
          selected_runs = elim (runs_field saved) [
            | none ↦ []
            | some runs ↦ runs_onto [] (entries_of runs)
          ];
        })
      ]
    ]
