-- ===== src/Trading/RunTickets.antt =====
-- apps/web/src/operator/StrategyRunPanel.tsx: the ticket that is confirmed is for what is selected.
use mathlib.Core.Path.{subst}
use montlok_terminal.Prelude.{
  String, ◌≡◌, ◌⊎◌, refl, sym, ap, ◌∙◌, inl, inr, Bool, true, false, not, ◌&&◌, ◌||◌, List, [], ◌∷◌,
  Option, none, some, arith, ◌==◌, string_eq, nat_eq, Bool-cases, All,
}
use montlok_terminal.JsMap.{set}
use montlok_terminal.Trading.RunControl.{Inputs}
use montlok_terminal.Trading.RunPanel.{
  Scope, Panel, same_text, same_inputs, same_scope, selected_run, scope, inputs, reset,
  without_start, drop_start, same_link, starts_run, drop_run, show_pending, select_run, adopt_run,
  show_pending_of, switch_group, settle, Event, groups_arrive, runtime_arrives, selects_group,
  selects_run, enters, reduces, checks, checked, check_failed, prepares, prepared, prepare_failed,
  closes, completes, receipt_arrives, is_start_action, show_ticket, complete, step, run,
}

same_text-eq : (a b : Option String) → same_text a b ≡ true → a ≡ b
same_text-eq none none h = refl
same_text-eq (some a) (some b) h = ap some ((string_eq.beq_iff a b).0 h)
same_text-eq none (some b) h = absurd (ground (arith, h))
same_text-eq (some a) none h = absurd (ground (arith, h))

same_inputs-eq : (a b : Inputs) → same_inputs a b ≡ true → a ≡ b
same_inputs-eq a b h = ground (
  arith,
  h,
  same_text-eq a.budget b.budget,
  nat_eq.beq_iff a.duration_seconds b.duration_seconds,
  same_text-eq a.settings b.settings,
)

same_scope-eq : (a b : Scope) → same_scope a b ≡ true → a ≡ b
same_scope-eq a b h = (string_eq.beq_iff a b).0 h

module _ {T : Type 0} (is_start : T → Bool) (made_for : T → Inputs) where
  -- A ticket is of the scope, and the ticket of a start is for the inputs.
  abbrev pub Stands : Option (T × Scope) → Scope → Inputs → Type 0
  Stands none sc i = Unit
  Stands (some (t, own)) sc i = (own ≡ sc) × ((is_start t ≡ false) ⊎ (made_for t ≡ i))

  abbrev pub IsCurrent : Panel T → Type 0
  IsCurrent s = Stands s.ticket (scope s) (inputs s)

  -- The ticket of an answer is of the action and the inputs that were asked about.
  abbrev pub Answers : Event T → Type 0
  Answers (prepared action sc made ticket) =
      (is_start ticket ≡ is_start_action action) × (made_for ticket ≡ made)
  Answers _ = Unit

  Stands-without_start :
      (o : Option (T × Scope)) (sc : Scope) (i j : Inputs)
      → Stands o sc i
      → Stands (without_start is_start o) sc j
  Stands-without_start none sc i j h = tt
  Stands-without_start (some (t, own)) sc i j h = elim (Bool-cases (is_start t)) [
    | inl q ↦ rw q tt
    | inr q ↦ rw q (h.0, inl q)
  ]

  -- After the first effect: of the old scope, and for the new inputs.
  drop_start-Stands :
      (old s : Panel T)
      → Stands s.ticket (scope old) (inputs old)
      → Stands (drop_start is_start old s).ticket (scope old) (inputs (drop_start is_start old s))
  unfolding drop_start
  drop_start-Stands old s h =
      elim (Bool-cases (same_scope (scope old) (scope s) && same_inputs (inputs old) (inputs s))) [
        | inl q ↦ rw q (
            subst (λ i. Stands s.ticket (scope old) i)
              (same_inputs-eq (inputs old) (inputs s) (ground (arith, q))) h)
        | inr q ↦ rw q (Stands-without_start s.ticket (scope old) (inputs old) (inputs s) h)
      ]

  drop_start-group :
      (old s : Panel T) → (drop_start is_start old s).selected_group ≡ s.selected_group
  unfolding drop_start
  drop_start-group old s =
      elim (Bool-cases (same_scope (scope old) (scope s) && same_inputs (inputs old) (inputs s))) [
        | inl q ↦ rw q refl
        | inr q ↦ rw q refl
      ]

  -- After the second effect: of the new scope, which differs in the run alone.
  drop_run-IsCurrent :
      (old s : Panel T)
      → old.selected_group ≡ s.selected_group
      → Stands s.ticket (scope old) (inputs s)
      → IsCurrent (drop_run old s)
  unfolding drop_run
  drop_run-IsCurrent old s g h = elim (Bool-cases (selected_run old == selected_run s)) [
    | inl q ↦ rw q (
        subst (λ sc. Stands s.ticket sc (inputs s))
          (ground (arith, g, string_eq.beq_iff (selected_run old) (selected_run s), q)) h)
    | inr q ↦ rw q tt
  ]

  show_pending-keeps :
      (old s : Panel T)
      → ((show_pending old s).ticket ≡ s.ticket)
        × ((show_pending old s).selected_group ≡ s.selected_group)
  unfolding show_pending
  show_pending-keeps old s = (ground arith, ground arith)

  select_run-keeps :
      (s : Panel T) (run : Option String)
      → ((select_run s run).ticket ≡ s.ticket)
        × ((select_run s run).selected_group ≡ s.selected_group)
  select_run-keeps s none = (refl, refl)
  select_run-keeps s (some run) = (refl, refl)

  adopt_run-keeps :
      (old s : Panel T)
      → ((adopt_run old s).ticket ≡ s.ticket)
        × ((adopt_run old s).selected_group ≡ s.selected_group)
  unfolding adopt_run
  adopt_run-keeps old s = elim (Bool-cases (same_link old.receipt s.receipt)) [
    | inl q ↦ rw q (refl, refl)
    | inr q ↦ rw q (select_run-keeps s (starts_run s.receipt s.selected_group))
  ]

  -- After a change of the group there is no ticket.
  show_pending_of-ticket :
      (shown s : Panel T) → s.ticket ≡ none → (show_pending_of shown s).ticket ≡ none
  show_pending_of-ticket shown s h = ground (arith, h)

  drop_run-ticket : (old s : Panel T) → s.ticket ≡ none → (drop_run old s).ticket ≡ none
  unfolding drop_run
  drop_run-ticket old s h = ground (arith, h)

  switch_group-IsCurrent : (old s : Panel T) → IsCurrent (switch_group old s)
  unfolding switch_group reset
  switch_group-IsCurrent old s =
      let o = switch_group old s in
      let run = starts_run s.receipt s.selected_group in
      let shown = show_pending_of s (reset s) in
      let empty : o.ticket ≡ none =
        drop_run-ticket old (select_run shown run)
          ((select_run-keeps shown run).0 ∙ show_pending_of-ticket s (reset s) refl) in
      subst (λ t. Stands t (scope o) (inputs o)) (sym empty) tt

  -- A change that leaves the ticket alone, with the effects that follow it.
  settle-IsCurrent :
      (old s : Panel T) → s.ticket ≡ old.ticket → IsCurrent old → IsCurrent (settle is_start old s)
  unfolding settle
  settle-IsCurrent old s t h = elim (Bool-cases (old.selected_group == s.selected_group)) [
    | inl q ↦
        let u = adopt_run old (show_pending old s) in
        let p = show_pending-keeps old s in
        let a = adopt_run-keeps old (show_pending old s) in
        rw q (
          drop_run-IsCurrent old (drop_start is_start old u)
            ((string_eq.beq_iff old.selected_group s.selected_group).0 q
              ∙ sym (drop_start-group old u ∙ a.1 ∙ p.1))
            (drop_start-Stands old u
              (subst (λ o. Stands o (scope old) (inputs old)) (sym (a.0 ∙ p.0 ∙ t)) h)))
    | inr q ↦ rw q (switch_group-IsCurrent old s)
  ]

  step-IsCurrent :
      (s : Panel T) (e : Event T) → Answers e → IsCurrent s → IsCurrent (step is_start s e)
  unfolding step show_ticket complete
  step-IsCurrent s (groups_arrive groups) a h = h
  step-IsCurrent s (runtime_arrives group runtime) a h =
      elim (Bool-cases (s.selected_group == group)) [
        | inl q ↦ rw q (settle-IsCurrent s (record s { runtime = some runtime }) refl h)
        | inr q ↦ rw q h
      ]
  step-IsCurrent s (selects_group group) a h =
      settle-IsCurrent s (record s { selected_group = group }) refl h
  step-IsCurrent s (selects_run run) a h =
      settle-IsCurrent s (record s { selected_runs = set s.selected_runs s.selected_group run })
        refl h
  step-IsCurrent s (enters entered) a h = settle-IsCurrent s (record s { entered = entered }) refl h
  step-IsCurrent s (reduces instruments) a h = tt
  step-IsCurrent s checks a h = h
  step-IsCurrent s (checked sc made ok) a h = elim (Bool-cases (same_scope (scope s) sc)) [
    | inl q ↦ rw q h
    | inr q ↦ rw q h
  ]
  step-IsCurrent s (check_failed sc error) a h = elim (Bool-cases (same_scope (scope s) sc)) [
    | inl q ↦ rw q h
    | inr q ↦ rw q h
  ]
  step-IsCurrent s (prepares action) a h = h
  step-IsCurrent s (prepared action sc made ticket) a h =
      elim (Bool-cases (
        same_scope (scope s) sc && (not (is_start_action action) || same_inputs (inputs s) made))) [
          | inl q ↦ rw q (
            sym (same_scope-eq (scope s) sc (ground (arith, q))),
            elim (Bool-cases (is_start ticket)) [
              | inl b ↦ inr (a.1 ∙ sym (same_inputs-eq (inputs s) made (ground (arith, q, a.0, b))))
              | inr b ↦ inl b
            ],
          )
          | inr q ↦ rw q h
        ]
  step-IsCurrent s (prepare_failed sc error) a h = elim (Bool-cases (same_scope (scope s) sc)) [
    | inl q ↦ rw q h
    | inr q ↦ rw q h
  ]
  step-IsCurrent s closes a h = tt
  step-IsCurrent s (completes sc of_group receipt) a h =
      elim (Bool-cases (same_scope (scope s) sc)) [
        | inl q ↦ rw q (
            settle-IsCurrent s _
              (select_run-keeps (record s { receipt = some receipt; checked = none }) _).0 h)
        | inr q ↦ rw q h
      ]
  step-IsCurrent s (receipt_arrives receipt) a h = settle-IsCurrent s _ refl h

  -- Whatever is selected, entered, answered or executed, and in whatever order: the ticket that waits
  -- for its confirmation was made in the scope of the selected group and the selected run, and if it
  -- starts a run it is for the budget, the duration and the settings that the panel shows; where each
  -- answer of the server is a ticket for what it was asked about. Where no run is selected, the scope
  -- names the group alone.
  pub run-IsCurrent :
      (s : Panel T) (es : List (Event T))
      → IsCurrent s
      → All Answers es
      → IsCurrent (run is_start s es)
  unfolding run
  run-IsCurrent s [] h a = h
  run-IsCurrent s (e ∷ es) h a = run-IsCurrent (step is_start s e) es (step-IsCurrent s e a.0 h) a.1
