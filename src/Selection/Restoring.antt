-- ===== src/Selection/Restoring.antt =====
-- apps/web/src/models/operator.ts: an edit is never lost.
use montlok_terminal.Prelude.{
  ◌≡◌, ◌≤◌, refl, sym, ap, ◌∙◌, Bool, true, false, List, [], ◌∷◌, arith, string_eq, nat_eq,
  Option-cases,
}
use montlok_terminal.Selection.Storage.{RunSelection}
use montlok_terminal.Selection.Saving.{Browser}
use montlok_terminal.Selection.Operator.{
  Operator, set_selected_group, set_selected_runs, restore, save, Event, sets_group, sets_runs,
  sets_instrument, validated, unmounted, step, run,
}

-- The selection that the edits alone make.
abbrev pub edited : RunSelection → List Event → RunSelection
edited s [] = s
edited s (sets_group value ∷ es) = edited (record s { selected_group = value s.selected_group }) es
edited s (sets_runs value ∷ es) = edited (record s { selected_runs = value s.selected_runs }) es
edited s (sets_instrument instrument ∷ es) = edited s es
edited s (validated operator restored ∷ es) = edited s es
edited s (unmounted ∷ es) = edited s es

edited_cons :
    (s : RunSelection) (e : Event) (es : List Event)
    → edited s (e ∷ es) ≡ edited (edited s (e ∷ [])) es
edited_cons s (sets_group value) es = refl
edited_cons s (sets_runs value) es = refl
edited_cons s (sets_instrument instrument) es = refl
edited_cons s (validated operator restored) es = refl
edited_cons s unmounted es = refl

-- An edit: a group or runs are set.
abbrev pub is_edit : Event → Bool
is_edit (sets_group value) = true
is_edit (sets_runs value) = true
is_edit _ = false

module _ (browser : Browser) where
  -- One step: the edits are counted, and a selection that was edited is changed by edits only.
  step-edited :
      (s : Operator) (e : Event)
      → 1 ≤ s.selection_edits
      → ((step browser s e).selection ≡ edited s.selection (e ∷ []))
        × (1 ≤ (step browser s e).selection_edits)
  unfolding step set_selected_group set_selected_runs restore save
  step-edited s (sets_group value) h = (ground arith, ground (arith, h))
  step-edited s (sets_runs value) h = (ground arith, ground (arith, h))
  step-edited s (sets_instrument instrument) h = (refl, h)
  step-edited s (validated operator restored) h =
      (ground (arith, h, Option-cases restored), ground (arith, h))
  step-edited s unmounted h = (refl, h)

  run-edited_from :
      (s : Operator) (es : List Event)
      → 1 ≤ s.selection_edits
      → (run browser s es).selection ≡ edited s.selection es
  unfolding run
  run-edited_from s [] h = refl
  run-edited_from s (e ∷ es) h =
      let n = step-edited s e h in
      run-edited_from (step browser s e) es n.1
      ∙ ap (λ x. edited x es) n.0
      ∙ sym (edited_cons s.selection e es)

  -- From an edit on, the selection is what the edits make of it: a selection that is restored later
  -- changes nothing of it, whenever it comes and whatever it is.
  pub run-edited :
      (s : Operator) (e : Event) (es : List Event)
      → is_edit e ≡ true
      → (run browser s (e ∷ es)).selection ≡ edited s.selection (e ∷ es)
  unfolding run step set_selected_group set_selected_runs save
  run-edited s (sets_group value) es h =
      run-edited_from (step browser s (sets_group value)) es (ground arith)
      ∙ ap (λ x. edited x es) (ground arith)
  run-edited s (sets_runs value) es h =
      run-edited_from (step browser s (sets_runs value)) es (ground arith)
      ∙ ap (λ x. edited x es) (ground arith)
  run-edited s (sets_instrument instrument) es h = absurd (ground (arith, h))
  run-edited s (validated operator restored) es h = absurd (ground (arith, h))
  run-edited s unmounted es h = absurd (ground (arith, h))
