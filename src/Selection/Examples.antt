-- ===== src/Selection/Examples.antt =====
-- apps/web/src/operator/selectionStorage.ts: a saved selection and the answers of the server.
use montlok_terminal.Prelude.{
  if◌then◌else◌, ◌⊎◌, ◌==◌, String, ◌≡◌, List, refl, true, [], ◌∷◌, Option, none, some, string_eq,
}
use montlok_terminal.JsMap.{get, set}
use montlok_terminal.Json.{Json, null, object, field, end, string}
use montlok_terminal.Selection.Storage.{RunSelection, read_selection}
use montlok_terminal.Selection.Validate.{
  Group, Runtime, validate_selection, check_groups, check_group, confirms,
}
use montlok_terminal.Selection.Operator
use montlok_terminal.Selection.Operator.{
  Operator, new_operator, step, set_selected_runs, set_selected_group, restore, save, sets_runs,
  sets_group, validated, run,
}
use montlok_terminal.Selection.Restoring.{edited, run-edited}
use montlok_terminal.Selection.Reload.{kept, run-reloads}
use montlok_terminal.Selection.Saving.{Browser, selection_key, selection_json, save_selection}
use montlok_terminal.Selection.Account
use montlok_terminal.Selection.Account.{
  new_account, session_ready, hides, shows, run as run_account,
}
use montlok_terminal.Selection.Source.{IsSingle, run-IsSingle}
use montlok_terminal.Selection.Verified.{IsVerified, validate_selection-IsVerified}

abbrev saved : RunSelection
saved = record { selected_group = "gone"; selected_runs = ("alpha", "r1") ∷ ("beta", "r2") ∷ [] }

abbrev alpha : Group
alpha = record { id = "alpha"; mode = some "live"; run_id = none }

abbrev beta : Group
beta = record { id = "beta"; mode = none; run_id = some "r2" }

-- The runtime of "alpha" lists its run, and every other runtime is empty.
abbrev runtime : String → Option Runtime
runtime id = some (record {
  available = true;
  groups =
      record { group_id = some "alpha"; runs = record { run_id = some "r1"; group_id = none } ∷ [] }
      ∷ [];
})

validate_selection-IsVerified_example : IsVerified runtime saved "alpha" "r1"
unfolding validate_selection check_groups check_group confirms set
validate_selection-IsVerified_example =
    validate_selection-IsVerified runtime saved "alpha" "r1" (alpha ∷ beta ∷ []) refl

abbrev parse : String → Option Json
parse text = some (
    object (
      field "selectedGroup" (string "alpha") (
        field "selectedRuns"
          (object (field "alpha" (string "r1") (field "__proto__" (string "x") end))) end)))

-- The selection is restored after the operator has chosen a group.
abbrev page : Operator
page = new_operator []

-- A browser that keeps every text and prints one selection, and its reader.
abbrev browser : Browser
browser = record { encode = λ text. text; print = λ j. "{…}"; accepts = λ m k t. true }

abbrev late : List Operator.Event
late = validated "op" (some saved) ∷ sets_group (λ g. "gamma") ∷ []

run-edited_example :
    (run browser page (sets_group (λ g. "beta") ∷ late)).selection
    ≡ edited page.selection (sets_group (λ g. "beta") ∷ late)
run-edited_example = run-edited browser page (sets_group (λ g. "beta")) late refl

-- A late restore, and the selection of an empty run, which is not kept.
abbrev runs_chosen : List (String × String)
runs_chosen = ("alpha", "r1") ∷ ("beta", "") ∷ []

abbrev edits : List Operator.Event
edits = sets_runs (λ runs. runs_chosen) ∷ late

abbrev chosen : RunSelection
chosen = record { selected_group = "gamma"; selected_runs = runs_chosen }

abbrev read_chosen : String → Option Json
read_chosen text = if text == "{…}" then some (selection_json chosen) else none

edits-chosen : (run browser (new_operator []) edits).selection ≡ chosen
unfolding run step set_selected_runs set_selected_group restore save save_selection
edits-chosen = refl

run-reloads_example :
    ((run browser (new_operator []) edits).selection_owner ≡ "")
    ⊎ (read_selection read_chosen (
          get
            (run browser (new_operator []) edits).stored
            (selection_key browser (run browser (new_operator []) edits).selection_owner))
        ≡ some (kept (run browser (new_operator []) edits).selection))
unfolding run step set_selected_runs set_selected_group restore save save_selection
run-reloads_example =
    run-reloads browser read_chosen refl (λ m k t. refl) [] edits refl (refl, (refl, tt))

abbrev source_events : List Account.Event
source_events = session_ready ∷ hides ∷ shows true ∷ shows true ∷ session_ready ∷ session_ready ∷ []

run-IsSingle_example : IsSingle (run_account (new_account null null null) source_events)
run-IsSingle_example = run-IsSingle null null null source_events
