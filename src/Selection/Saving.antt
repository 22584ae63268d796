-- ===== src/Selection/Saving.antt =====
-- apps/web/src/operator/selectionStorage.ts: the key and the text under which a selection is saved.
use Prim.Native.String.{◌++◌ as ◌+s◌}
use montlok_terminal.Prelude.{String, Bool, List, [], ◌∷◌, if◌then◌else◌, string_eq}
use montlok_terminal.JsMap.{set}
use montlok_terminal.Json.{Json, Fields, object, string, field, end}
use montlok_terminal.Selection.Storage.{RunSelection}

-- What the browser gives: `encodeURIComponent`, `JSON.stringify`, and whether `setItem` keeps a text
-- under a key, or throws.
pub record Browser : Type 0 where
  pub encode : String → String
  pub print : Json → String
  pub accepts : List (String × String) → String → String → Bool

abbrev pub selection_key : Browser → String → String
selection_key browser operator = "operator.run-selection.v3:" +s browser.encode operator

abbrev pub runs_json : List (String × String) → Fields
runs_json [] = end
runs_json ((group, run) ∷ runs) = field group (string run) (runs_json runs)

abbrev pub selection_json : RunSelection → Json
selection_json selection = object (
    field "selectedGroup" (string selection.selected_group)
      (field "selectedRuns" (object (runs_json selection.selected_runs)) end))

-- Where `setItem` throws, the storage stays as it is.
unfoldable pub save_selection :
    Browser → List (String × String) → String → RunSelection → List (String × String)
save_selection browser stored operator selection =
    let key = selection_key browser operator in
    let text = browser.print (selection_json selection) in
    if browser.accepts stored key text then set stored key text else stored
