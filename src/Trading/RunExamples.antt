-- ===== src/Trading/RunExamples.antt =====
-- apps/web/src/operator/StrategyRunPanel.tsx: the panel on concrete events.
use montlok_terminal.Prelude.{◌≡◌, ◌⊎◌, refl, Bool, true, false, List, [], ◌∷◌, none, some}
use montlok_terminal.Trading.RunControl.{
  start, halt, stop, Control, Runtime, Inputs, eligibility_reason, allows, can_stop_legacy,
  action_reason, controllable,
}
use montlok_terminal.Trading.RunReasons.{action_reason-offered}
use montlok_terminal.Trading.RunPanel.{
  Panel, Event, runtime_arrives, prepares, prepared, selects_run, run,
}
use montlok_terminal.Trading.RunTickets.{IsCurrent, run-IsCurrent}

abbrev control : Control
control = record {
  group_id = "alpha";
  run_id = some "r1";
  live = true;
  continuous = true;
  default_settings = none;
  default_budget = "";
  compatible = true;
  compatibility_reason = "";
  pending_start = "";
  capabilities = record { allows = λ a. true; reason = ""; resume_reason = "" };
  runs = record { run_id = "r1"; status = "running" } ∷ [];
}

abbrev runtime : Runtime
runtime = record { available = true; reason = ""; groups = control ∷ [] }

action_reason-offered_example :
    ((controllable true false
          (some runtime)
          (some control)
          (some (record { run_id = "r1"; status = "running" }))
        ≡ true)
      × (allows (some control) halt ≡ true))
    ⊎ ((halt ≡ stop) × (can_stop_legacy true false none ≡ true))
unfolding action_reason eligibility_reason
action_reason-offered_example =
    action_reason-offered true false (some runtime) (some control) halt
      (some (record { run_id = "r1"; status = "running" })) none refl

-- The tickets of this server say whether they start a run, and for which inputs.
abbrev Prepared : Type 0
Prepared = Bool × Inputs

abbrev panel : Panel Prepared
panel = record {
  selected_group = "alpha";
  selected_runs = [];
  groups = [];
  runtime = none;
  entered = record { budget = none; minutes = some 60; run_mode = none; settings = none };
  checked = none;
  ticket = none;
  busy = false;
  error = "";
  receipt = none;
  reduction_scope = [];
}

abbrev continuous_run : Inputs
continuous_run = record { budget = none; duration_seconds = 0; settings = none }

abbrev events : List (Event Prepared)
events =
    runtime_arrives "alpha" runtime
    ∷ prepares start
    ∷ prepared start "alpha/" continuous_run (true, continuous_run)
    ∷ selects_run "r1"
    ∷ []

run-IsCurrent_example :
    IsCurrent (λ (t : Prepared). t.0) (λ t. t.1) (run (λ (t : Prepared). t.0) panel events)
run-IsCurrent_example =
    run-IsCurrent (λ t. t.0) (λ t. t.1) panel events tt (tt, (tt, ((refl, refl), (tt, tt))))
