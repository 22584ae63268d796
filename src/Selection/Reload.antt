-- ===== src/Selection/Reload.antt =====
-- apps/web/src/models/operator.ts, operator/selectionStorage.ts: what a reload finds of the selection.
use Prim.Native.String.{String}
use montlok_terminal.Prelude.{
  ◌≡◌, ◌⊎◌, refl, sym, ap, ◌∙◌, inl, inr, true, false, List, [], ◌∷◌, ◌++◌, append_assoc,
  append-nil, Option, none, some, filter, arith, ◌==◌, string_eq, nat_eq, Bool-cases, Distinct,
  includes,
}
use montlok_terminal.JsMap.{get, set, keys, get-set_self, includes-keys-set}
use montlok_terminal.Json.{Json, entries}
use montlok_terminal.Selection.Storage.{RunSelection, is_kept, runs_onto, read_selection}
use montlok_terminal.Selection.Saving.{
  Browser, selection_key, runs_json, selection_json, save_selection,
}
use montlok_terminal.Selection.Operator.{
  Operator, new_operator, set_selected_group, set_selected_runs, restore, save, Event, sets_group,
  sets_runs, sets_instrument, validated, unmounted, step, run,
}

-- What reading keeps of a selection: no empty run, and no group of a reserved name.
abbrev pub kept_runs : List (String × String) → List (String × String)
kept_runs runs = filter (λ r. is_kept r.0 r.1) runs

abbrev pub kept : RunSelection → RunSelection
kept selection = record {
  selected_group = selection.selected_group;
  selected_runs = kept_runs selection.selected_runs;
}

set-append :
    (m : List (String × String)) (k v : String)
    → includes (keys m) k ≡ false
    → set m k v ≡ m ++ (k, v) ∷ []
unfolding set
set-append [] k v h = refl
set-append ((j, w) ∷ m) k v h =
    let other : (j == k) ≡ false =
      ground (arith, h, string_eq.beq_iff j k, string_eq.beq_iff k j) in
    rw other (ap (λ rest. (j, w) ∷ rest) (set-append m k v (ground (arith, h))))

runs_onto-kept :
    (into runs : List (String × String))
    → ((k : String) → includes (keys runs) k ≡ true → includes (keys into) k ≡ false)
    → Distinct (keys runs)
    → runs_onto into (entries (runs_json runs)) ≡ into ++ kept_runs runs
unfolding runs_onto
runs_onto-kept into [] apart d = sym (append-nil into)
runs_onto-kept into ((group, run) ∷ runs) apart d = elim (Bool-cases (is_kept group run)) [
  | inr q ↦ rw q (runs_onto-kept into runs (λ k h. apart k (ground (arith, h))) d.1)
  | inl q ↦
      let fresh : includes (keys into) group ≡ false =
        apart group (ground (arith, string_eq.beq_iff group group)) in
      let rest =
        runs_onto-kept (set into group run) runs
          (λ k h.
            ground (
              arith,
              h,
              d.0,
              apart k,
              includes-keys-set into group run k,
              string_eq.beq_iff group k,
            ))
          d.1 in
      rw q (
        rest
        ∙ ap (λ m. m ++ kept_runs runs) (set-append into group run fresh)
        ∙ append_assoc into ((group, run) ∷ []) (kept_runs runs))
]

module _ (browser : Browser) (parse : String → Option Json) (parse_empty : parse "" ≡ none) where
  text-nonempty :
      (selection : RunSelection)
      → parse (browser.print (selection_json selection)) ≡ some (selection_json selection)
      → (browser.print (selection_json selection) == "") ≡ false
  text-nonempty selection law =
      let text = browser.print (selection_json selection) in
      elim (Bool-cases (text == "")) [
        | inr q ↦ q
        | inl q ↦
            let e : parse text ≡ none = ap parse ((string_eq.beq_iff text "").0 q) ∙ parse_empty in
            absurd (ground (arith, e, law))
      ]

  -- Reading what was saved.
  read_selection-saved :
      (selection : RunSelection)
      → parse (browser.print (selection_json selection)) ≡ some (selection_json selection)
      → Distinct (keys selection.selected_runs)
      → read_selection parse (some (browser.print (selection_json selection)))
        ≡ some (kept selection)
  unfolding read_selection
  read_selection-saved selection law d =
      rw (read_selection, text-nonempty selection law, law)
        (ap
          (λ runs.
            some (record { selected_group = selection.selected_group; selected_runs = runs }))
          (runs_onto-kept [] selection.selected_runs (λ k h. refl) d))

  module _
      (accepts_all : (m : List (String × String)) (k t : String)
        → browser.accepts m k t ≡ true) where
    -- The text of the selection is stored, once its owner is known.
    abbrev IsStored : Operator → Type 0
    IsStored s =
        (s.selection_owner ≡ "")
        ⊎ (get s.stored (selection_key browser s.selection_owner)
            ≡ some (browser.print (selection_json s.selection)))

    save-IsStored : (s : Operator) → IsStored (save browser s)
    unfolding save save_selection
    save-IsStored s =
        let key = selection_key browser s.selection_owner in
        let text = browser.print (selection_json s.selection) in
        elim (Bool-cases (s.selection_owner == "")) [
          | inl q ↦ rw q (inl ((string_eq.beq_iff s.selection_owner "").0 q))
          | inr q ↦ rw (q, accepts_all s.stored key text) (inr (get-set_self s.stored key text))
        ]

    step-IsStored : (s : Operator) (e : Event) → IsStored s → IsStored (step browser s e)
    unfolding step set_selected_group set_selected_runs restore
    step-IsStored s (sets_group value) h = save-IsStored _
    step-IsStored s (sets_runs value) h = save-IsStored _
    step-IsStored s (sets_instrument instrument) h = h
    step-IsStored s (validated operator restored) h = elim (Bool-cases s.disposed) [
      | inl q ↦ rw q h
      | inr q ↦ rw q (save-IsStored _)
    ]
    step-IsStored s unmounted h = h

    run-IsStored_from : (s : Operator) (es : List Event) → IsStored s → IsStored (run browser s es)
    unfolding run
    run-IsStored_from s [] h = h
    run-IsStored_from s (e ∷ es) h = run-IsStored_from (step browser s e) es (step-IsStored s e h)

    -- From a new page on, whatever happens and in whatever order: either no owner of the selection is
    -- known yet, or reading the storage again finds the selection that the page shows, less its empty
    -- runs and the groups of reserved names. This is where the browser keeps what is written, each group
    -- has one run, and the language's JSON reads back the text that it wrote for this selection and
    -- refuses the empty text.
    pub run-reloads :
        (stored : List (String × String)) (es : List Event)
        → let s = run browser (new_operator stored) es in
          parse (browser.print (selection_json s.selection)) ≡ some (selection_json s.selection)
          → Distinct (keys s.selection.selected_runs)
          → (s.selection_owner ≡ "")
            ⊎ (read_selection parse (get s.stored (selection_key browser s.selection_owner))
                ≡ some (kept s.selection))
    run-reloads stored es law d =
        let s = run browser (new_operator stored) es in
        let r : IsStored s = run-IsStored_from (new_operator stored) es (inl refl) in
        elim r [
          | inl q ↦ inl q
          | inr q ↦ inr (ap (read_selection parse) q ∙ read_selection-saved s.selection law d)
        ]
