-- ===== src/Selection/Validate.antt =====
-- apps/web/src/operator/selectionStorage.ts: `validateSelection`. What the server answers is given: the
-- listing of the groups, and for each group its runtime, `none` where that request fails.
-- The answers are taken in the order of the groups.
use montlok_terminal.Prelude.{
  String, Bool, false, ◌&&◌, ◌||◌, List, [], ◌∷◌, Option, none, some, if◌then◌else◌, ◌==◌,
  string_eq, any, find?, get_or,
}
use montlok_terminal.JsMap.{get, set}
use montlok_terminal.Selection.Storage.{RunSelection}

-- A row of the listing. A field that is no text is `none`, and `id` is a text.
pub record Group : Type 0 where
  pub id : String
  pub mode : Option String
  pub run_id : Option String

pub record RuntimeRun : Type 0 where
  pub run_id : Option String
  pub group_id : Option String

pub record RuntimeGroup : Type 0 where
  pub group_id : Option String
  pub runs : List RuntimeRun

pub record Runtime : Type 0 where
  pub available : Bool
  pub groups : List RuntimeGroup

abbrev pub is_text : Option String → String → Bool
is_text none s = false
is_text (some t) s = t == s

-- `found?.id || rest`
abbrev pub or_else : Option Group → String → String
or_else none rest = rest
or_else (some g) rest = if g.id == "" then rest else g.id

abbrev pub first : List Group → Option Group
first [] = none
first (g ∷ gs) = some g

unfoldable pub fallback_group : List Group → String
fallback_group groups =
    or_else (find? (λ (g : Group). g.id == "live-sector-6040" && is_text g.mode "live") groups) (
      or_else (find? (λ (g : Group). is_text g.mode "live") groups) (
        or_else (find? (λ (g : Group). g.id == "baseline") groups)
          (or_else (first groups) "baseline")))

unfoldable pub select_group : List Group → String → String
select_group groups saved =
    if any (λ (g : Group). g.id == saved) groups then saved else fallback_group groups

-- `run.runId === runId && (!run.groupId || run.groupId === group.id)`
abbrev pub is_run : String → String → RuntimeRun → Bool
is_run group_id run_id run =
    is_text run.run_id run_id
    && (get_or run.group_id "" == "" || get_or run.group_id "" == group_id)

-- The runtime lists the run under the group.
unfoldable pub confirms : Runtime → String → String → Bool
confirms result group_id run_id =
    result.available
    && (elim (find? (λ (item : RuntimeGroup). is_text item.group_id group_id) result.groups)
        as (λ x. Bool) [ none ↦ false | some current ↦ any (is_run group_id run_id) current.runs ])

-- What one group adds to the selection.
unfoldable pub check_group :
    (String → Option Runtime)
    → RunSelection
    → List (String × String)
    → Group
    → List (String × String)
check_group runtime saved runs group =
    let run_id = get_or (get saved.selected_runs group.id) "" in
    if run_id == "" then runs else elim (runtime group.id) [
      | none ↦ runs
      | some result ↦
          if confirms result group.id run_id
          then set runs group.id run_id
          else if is_text group.run_id run_id
          then set runs group.id ""
          else runs
    ]

unfoldable pub check_groups :
    (String → Option Runtime)
    → RunSelection
    → List (String × String)
    → List Group
    → List (String × String)
check_groups runtime saved runs [] = runs
check_groups runtime saved runs (g ∷ gs) =
    check_groups runtime saved (check_group runtime saved runs g) gs

unfoldable pub validate_selection :
    List Group → (String → Option Runtime) → RunSelection → RunSelection
validate_selection [] runtime saved = record {
  selected_group = "live-sector-6040";
  selected_runs = [];
}
validate_selection (g ∷ gs) runtime saved = record {
  selected_group = select_group (g ∷ gs) saved.selected_group;
  selected_runs = check_groups runtime saved [] (g ∷ gs);
}
