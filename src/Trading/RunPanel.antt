-- ===== src/Trading/RunPanel.antt =====
-- apps/web/src/operator/StrategyRunPanel.tsx: the state of the panel. A state is what is rendered: a
-- change, with the effects that follow it, is one step. `T` is the ticket that the server prepares.
use Prim.Native.String.{◌++◌ as ◌+s◌}
use montlok_terminal.Prelude.{
  String, Bool, true, false, not, ◌&&◌, ◌||◌, List, [], ◌∷◌, Option, none, some, if◌then◌else◌,
  ◌==◌, string_eq, nat_eq, get_or,
}
use montlok_terminal.JsMap.{get, set}
use montlok_terminal.Trading.RunControl.{
  Action, start, Control, Runtime, Group, Receipt, Entered, Inputs, control_of, inputs_of,
}

-- `actionScope`: the text of the selected group and the selected run. Where no run is selected, the
-- panel may show the run of a managed group, which the scope does not name.
abbrev pub Scope : Type 0
Scope = String

abbrev pub action_scope : String → String → Scope
action_scope group run = group +s "/" +s run

pub record Panel (T : Type 0) : Type 0 where
  pub selected_group : String
  pub selected_runs : List (String × String)
  pub groups : List Group
  pub runtime : Option Runtime
  pub entered : Entered
  pub checked : Option (Scope × (Inputs × Bool))
  -- the ticket and its `actionScope`
  pub ticket : Option (T × Scope)
  pub busy : Bool
  pub error : String
  pub receipt : Option Receipt
  pub reduction_scope : List String

abbrev pub same_text : Option String → Option String → Bool
same_text none none = true
same_text (some a) (some b) = a == b
same_text _ _ = false

abbrev pub same_inputs : Inputs → Inputs → Bool
same_inputs a b =
    same_text a.budget b.budget
    && a.duration_seconds == b.duration_seconds
    && same_text a.settings b.settings

abbrev pub same_scope : Scope → Scope → Bool
same_scope a b = a == b

abbrev same_run_receipt : Option Receipt → String → Option Receipt
same_run_receipt none run = none
same_run_receipt (some r) run =
    if not (r.run_id == "") && not (r.run_id == run) then none else some r

-- Whether the effect that reads `action`, `runId` and `groupId` of the receipt is due.
abbrev pub same_link : Option Receipt → Option Receipt → Bool
same_link none none = true
same_link (some a) (some b) =
    a.action == b.action && a.run_id == b.run_id && a.group_id == b.group_id
same_link _ _ = false

abbrev pending_of : Option Control → String
pending_of none = ""
pending_of (some control) = control.pending_start

abbrev pending_receipt : String → String → Receipt
pending_receipt id group = record {
  id = id;
  action = "start";
  status = "processing";
  receipt_status = "processing";
  run_id = "";
  group_id = group;
  result_status = "";
  has_error = false;
}

abbrev has_receipt : Option Receipt → String → Bool
has_receipt none id = false
has_receipt (some r) id = r.id == id

abbrev pub starts_run : Option Receipt → String → Option String
starts_run none group = none
starts_run (some r) group =
    if r.action == "start" && not (r.run_id == "") && r.group_id == group
    then some r.run_id
    else none

module _ {T : Type 0} where
  abbrev pub selected_run : Panel T → String
  selected_run s = get_or (get s.selected_runs s.selected_group) ""

  abbrev pub scope : Panel T → Scope
  scope s = action_scope s.selected_group (selected_run s)

  abbrev pub inputs : Panel T → Inputs
  inputs s = inputs_of (control_of s.runtime s.selected_group) s.entered

  -- the effect `[selectedGroup]`
  unfoldable pub reset : Panel T → Panel T
  reset s = record s {
    runtime = none;
    entered = record {
      budget = none;
      minutes = s.entered.minutes;
      run_mode = none;
      settings = none;
    };
    checked = none;
    ticket = none;
    receipt = none;
    error = "";
    reduction_scope = [];
  }

  abbrev pub without_start : (T → Bool) → Option (T × Scope) → Option (T × Scope)
  without_start is_start none = none
  without_start is_start (some (t, sc)) = if is_start t then none else some (t, sc)

  -- the effect `[fingerprint]`, after a change from `old`
  unfoldable pub drop_start : (T → Bool) → Panel T → Panel T → Panel T
  drop_start is_start old s =
      if same_scope (scope old) (scope s) && same_inputs (inputs old) (inputs s)
      then s
      else record s { ticket = without_start is_start s.ticket }

  -- the effect `[selectedRun]`
  unfoldable pub drop_run : Panel T → Panel T → Panel T
  drop_run old s =
      if selected_run old == selected_run s
      then s
      else record s { ticket = none; receipt = same_run_receipt s.receipt (selected_run s) }

  abbrev pending : Panel T → String
  pending s = pending_of (control_of s.runtime s.selected_group)

  -- the effect `[pendingStart?.operationId, selectedGroup]`
  unfoldable pub show_pending : Panel T → Panel T → Panel T
  show_pending old s =
      if pending s == "" || pending old == pending s || has_receipt s.receipt (pending s)
      then s
      else record s { receipt = some (pending_receipt (pending s) s.selected_group) }

  abbrev pub select_run : Panel T → Option String → Panel T
  select_run s none = s
  select_run s (some run) = record s { selected_runs = set s.selected_runs s.selected_group run }

  -- the effect that selects the run of a start's receipt
  unfoldable pub adopt_run : Panel T → Panel T → Panel T
  adopt_run old s =
      if same_link old.receipt s.receipt
      then s
      else select_run s (starts_run s.receipt s.selected_group)

  -- The effects after a change of the group, which are all due: they read the state `s` of the render,
  -- with the runtime and the receipt of before, and write one after the other.
  abbrev pub show_pending_of : Panel T → Panel T → Panel T
  show_pending_of shown s =
      if pending shown == ""
      then s
      else record s { receipt = some (pending_receipt (pending shown) shown.selected_group) }

  unfoldable pub switch_group : Panel T → Panel T → Panel T
  switch_group old s =
      drop_run old
        (select_run (show_pending_of s (reset s)) (starts_run s.receipt s.selected_group))

  -- the effects after a change in the same group, and after a change of the group
  unfoldable pub settle : (T → Bool) → Panel T → Panel T → Panel T
  settle is_start old s =
      if old.selected_group == s.selected_group
      then drop_run old (drop_start is_start old (adopt_run old (show_pending old s)))
      else switch_group old s

pub data Event (T : Type 0) : Type 0 where
  groups_arrive : List Group → Event T
  -- an answer of the group's runtime service, or its failure
  runtime_arrives : String → Runtime → Event T
  selects_group : String → Event T
  selects_run : String → Event T
  enters : Entered → Event T
  reduces : List String → Event T
  checks : Event T
  checked : Scope → Inputs → Bool → Event T
  check_failed : Scope → String → Event T
  prepares : Action → Event T
  prepared : Action → Scope → Inputs → T → Event T
  prepare_failed : Scope → String → Event T
  closes : Event T
  -- the confirmed operation of a scope was executed
  completes : Scope → Bool → Receipt → Event T
  -- the server's newer state of a receipt
  receipt_arrives : Receipt → Event T

abbrev update_receipt : Option Receipt → Receipt → Option Receipt
update_receipt none new = none
update_receipt (some old) new = if old.id == new.id then some new else some old

abbrev pub is_start_action : Action → Bool
is_start_action start = true
is_start_action _ = false

module _ {T : Type 0} (is_start : T → Bool) where
  unfoldable pub show_ticket : Panel T → Action → Scope → Inputs → T → Panel T
  show_ticket s action sc made ticket =
      if same_scope (scope s) sc && (not (is_start_action action) || same_inputs (inputs s) made)
      then record s { ticket = some (ticket, sc); busy = false }
      else record s { busy = false }

  -- `onComplete`; `of_group` says that the operation is of the kind `group`
  unfoldable pub complete : Panel T → Scope → Bool → Receipt → Panel T
  complete s sc of_group receipt =
      if same_scope (scope s) sc
      then settle is_start s (
          select_run (record s { receipt = some receipt; checked = none })
            (if of_group && not (receipt.run_id == "") then some receipt.run_id else none))
      else s

  unfoldable pub step : Panel T → Event T → Panel T
  step s (groups_arrive groups) = record s { groups = groups }
  step s (runtime_arrives group runtime) =
      if s.selected_group == group
      then settle is_start s (record s { runtime = some runtime })
      else s
  step s (selects_group group) = settle is_start s (record s { selected_group = group })
  step s (selects_run run) =
      settle is_start s (record s { selected_runs = set s.selected_runs s.selected_group run })
  step s (enters entered) = settle is_start s (record s { entered = entered })
  step s (reduces instruments) = record s { reduction_scope = instruments; ticket = none }
  step s checks = record s { busy = true; error = ""; checked = none }
  step s (checked sc made ok) =
      if same_scope (scope s) sc
      then record s { busy = false; checked = some (sc, (made, ok)) }
      else record s { busy = false }
  step s (check_failed sc error) =
      if same_scope (scope s) sc
      then record s { busy = false; error = error }
      else record s { busy = false }
  step s (prepares action) = record s { busy = true; error = "" }
  step s (prepared action sc made ticket) = show_ticket s action sc made ticket
  step s (prepare_failed sc error) =
      if same_scope (scope s) sc
      then record s { busy = false; error = error }
      else record s { busy = false }
  step s closes = record s { ticket = none }
  step s (completes sc of_group receipt) = complete s sc of_group receipt
  step s (receipt_arrives receipt) =
      settle is_start s (record s { receipt = update_receipt s.receipt receipt })

  unfoldable pub run : Panel T → List (Event T) → Panel T
  run s [] = s
  run s (e ∷ es) = run (step s e) es

abbrev is_valid : {T : Type 0} → Panel T → Option (Scope × (Inputs × Bool)) → Bool
is_valid s none = false
is_valid s (some (sc, (made, ok))) = same_scope sc (scope s) && same_inputs made (inputs s) && ok

-- `validCheck`
unfoldable pub valid_check : {T : Type 0} → Panel T → Bool
valid_check s = is_valid s s.checked
