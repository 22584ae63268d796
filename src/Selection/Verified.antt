-- ===== src/Selection/Verified.antt =====
-- apps/web/src/operator/selectionStorage.ts: what a selection can hold after it is read and validated.
use montlok_terminal.Prelude.{
  String, ◌≡◌, ◌⊎◌, refl, sym, inl, inr, Bool, true, false, ◌&&◌, List, [], ◌∷◌, Option, none, some,
  arith, if◌then◌else◌, ◌==◌, string_eq, any, find?, get_or, All, Option-cases, Bool-cases,
}
use montlok_terminal.JsMap.{get, set, get-set}
use montlok_terminal.Json.{Json, as_string}
use montlok_terminal.Selection.Storage.{
  RunSelection, is_kept, runs_onto, read_selection, group_of, runs_field, entries_of,
}
use montlok_terminal.Selection.Validate.{
  Group, Runtime, is_text, or_else, first, fallback_group, select_group, confirms, check_group,
  check_groups, validate_selection,
}

-- A run is restored if it was saved for the group and the group's runtime lists it; otherwise the
-- entry is empty.
abbrev pub IsVerified : (String → Option Runtime) → RunSelection → String → String → Type 0
IsVerified runtime saved group run =
    (run ≡ "")
    ⊎ ((get saved.selected_runs group ≡ some run)
        × (result : Runtime) × (runtime group ≡ some result)
        × (confirms result group run ≡ true))

-- What one group does to the runs that are restored.
abbrev Checked : (String → Option Runtime) → RunSelection → List (String × String) → Group → Type 0
Checked runtime saved runs g =
    (check_group runtime saved runs g ≡ runs)
    ⊎ (check_group runtime saved runs g ≡ set runs g.id "")
    ⊎ ((run : String) × (check_group runtime saved runs g ≡ set runs g.id run)
        × (get saved.selected_runs g.id ≡ some run)
        × (result : Runtime) × (runtime g.id ≡ some result)
        × (confirms result g.id run ≡ true))

check_group_cases :
    (runtime : String → Option Runtime) (saved : RunSelection) (runs : List (String × String))
    (g : Group)
    → Checked runtime saved runs g
unfolding check_group
check_group_cases runtime saved runs g = elim (Option-cases (get saved.selected_runs g.id)) [
  | inl q ↦ inl (rw (check_group, q))
  | inr (run, q) ↦ elim (Bool-cases (run == "")) [
    | inl e ↦ inl (ground (arith, q, e))
    | inr e ↦ elim (Option-cases (runtime g.id)) [
      | inl p ↦ inl (ground (arith, q, e, p))
      | inr (result, p) ↦ elim (Bool-cases (confirms result g.id run)) [
        | inl c ↦ inr (inr (run, ground (arith, q, e, p, c), q, result, p, c))
        | inr c ↦ elim (Bool-cases (is_text g.run_id run)) [
          | inl t ↦ inr (inl (ground (arith, q, e, p, c, t)))
          | inr t ↦ inl (ground (arith, q, e, p, c, t))
        ]
      ]
    ]
  ]
]

module _ (runtime : String → Option Runtime) (saved : RunSelection) (key run : String) where
  -- An entry after a write is the entry written, or was there before.
  get-set_cases :
      (runs : List (String × String)) (k v : String)
      → get (set runs k v) key ≡ some run
      → ((k ≡ key) × (v ≡ run)) ⊎ (get runs key ≡ some run)
  get-set_cases runs k v h = elim (Bool-cases (k == key)) [
    | inl q ↦ inl ((string_eq.beq_iff k key).0 q, ground (arith, h, q, get-set runs k v key))
    | inr q ↦ inr (ground (arith, h, q, get-set runs k v key))
  ]

  check_group-IsVerified :
      (runs : List (String × String)) (g : Group)
      → get (check_group runtime saved runs g) key ≡ some run
      → (get runs key ≡ some run) ⊎ IsVerified runtime saved key run
  check_group-IsVerified runs g h = elim (check_group_cases runtime saved runs g) [
    | inl q ↦ inl (rw q at h)
    | inr (inl q) ↦ elim (get-set_cases runs g.id "" (rw q at h)) [
      | inl (k, v) ↦ inr (inl (sym v))
      | inr there ↦ inl there
    ]
    | inr (inr (r, q, s, result, p, c)) ↦ elim (get-set_cases runs g.id r (rw q at h)) [
      | inl (k, v) ↦ inr (inr (rw (k, v) at s, result, rw k at p, rw (k, v) at c))
      | inr there ↦ inl there
    ]
  ]

  check_groups-IsVerified :
      (runs : List (String × String)) (gs : List Group)
      → get (check_groups runtime saved runs gs) key ≡ some run
      → (get runs key ≡ some run) ⊎ IsVerified runtime saved key run
  unfolding check_groups
  check_groups-IsVerified runs [] h = inl h
  check_groups-IsVerified runs (g ∷ gs) h =
      elim (check_groups-IsVerified (check_group runtime saved runs g) gs h) [
        | inl there ↦ check_group-IsVerified runs g there
        | inr verified ↦ inr verified
      ]

  -- Whatever the groups are and whatever the server answers for them, a run that validation restores
  -- is one that was saved for its group and that the group's runtime lists now, or it is the empty
  -- text, which selects no run.
  pub validate_selection-IsVerified :
      (groups : List Group)
      → get (validate_selection groups runtime saved).selected_runs key ≡ some run
      → IsVerified runtime saved key run
  unfolding validate_selection
  validate_selection-IsVerified [] h = absurd (ground (arith, h))
  validate_selection-IsVerified (g ∷ gs) h = elim (check_groups-IsVerified [] (g ∷ gs) h) [
    | inl there ↦ absurd (ground (arith, there))
    | inr verified ↦ verified
  ]

-- The groups have an id.
abbrev pub HasId : Group → Type 0
HasId g = (g.id == "") ≡ false

abbrev is_listed : List Group → String → Bool
is_listed groups id = any (λ (g : Group). g.id == id) groups

found_listed :
    (p : Group → Bool) (groups : List Group) (g : Group)
    → All HasId groups
    → find? p groups ≡ some g
    → HasId g × (is_listed groups g.id ≡ true)
found_listed p [] g n h = absurd (ground (arith, h))
found_listed p (x ∷ xs) g n h =
    ground (arith, h, n, found_listed p xs g n.1, string_eq.beq_iff x.id g.id)

or_else-listed :
    (groups : List Group) (o : Option Group) (rest : String)
    → ((g : Group) → o ≡ some g → HasId g × (is_listed groups g.id ≡ true))
    → is_listed groups rest ≡ true
    → is_listed groups (or_else o rest) ≡ true
or_else-listed groups none rest h r = r
or_else-listed groups (some g) rest h r = ground (arith, h g refl, r)

first-listed :
    (groups : List Group) (g : Group)
    → All HasId groups
    → first groups ≡ some g
    → HasId g × (is_listed groups g.id ≡ true)
first-listed [] g n h = absurd (ground (arith, h))
first-listed (x ∷ xs) g n h = ground (arith, h, n, string_eq.beq_iff x.id g.id)

or_else-first :
    (groups : List Group) (g : Group)
    → All HasId groups
    → first groups ≡ some g
    → is_listed groups (or_else (first groups) "baseline") ≡ true
or_else-first groups g n h =
    let (has, listed) = first-listed groups g n h in rw h (ground (arith, has, listed))

select_group-listed :
    (groups : List Group) (g : Group) (saved : String)
    → All HasId groups
    → first groups ≡ some g
    → is_listed groups (select_group groups saved) ≡ true
unfolding select_group fallback_group
select_group-listed groups g saved n h =
    let is_live = λ (x : Group). is_text x.mode "live" in
    let is_default = λ (x : Group). x.id == "live-sector-6040" && is_text x.mode "live" in
    let is_baseline = λ (x : Group). x.id == "baseline" in
    let fallback : is_listed groups (fallback_group groups) ≡ true =
      or_else-listed groups _ _ (λ x e. found_listed is_default groups x n e)
        (or_else-listed groups _ _ (λ x e. found_listed is_live groups x n e)
          (or_else-listed groups _ _ (λ x e. found_listed is_baseline groups x n e)
            (or_else-first groups g n h))) in
    elim (Bool-cases (is_listed groups saved)) [
      | inl q ↦ rw (select_group, q) q
      | inr q ↦ rw (select_group, q) fallback
    ]

-- Where there are groups, and each has an id, the group that is selected is one of them.
pub validate_selection-listed :
    (g : Group) (gs : List Group) (runtime : String → Option Runtime) (saved : RunSelection)
    → All HasId (g ∷ gs)
    → any
        (λ (x : Group). x.id == (validate_selection (g ∷ gs) runtime saved).selected_group)
        (g ∷ gs)
      ≡ true
unfolding validate_selection
validate_selection-listed g gs runtime saved n =
    select_group-listed (g ∷ gs) g saved.selected_group n refl

abbrev pub IsKept : String × String → Type 0
IsKept (group, run) = is_kept group run ≡ true

set-IsKept :
    (runs : List (String × String)) (group run : String)
    → is_kept group run ≡ true
    → All IsKept runs
    → All IsKept (set runs group run)
unfolding set
set-IsKept [] group run k h = (k, tt)
set-IsKept ((j, w) ∷ runs) group run k h =
    ground (arith, k, h, string_eq.beq_iff j group, set-IsKept runs group run k h.1)

runs_onto-IsKept :
    (runs : List (String × String)) (entries : List (String × Json))
    → All IsKept runs
    → All IsKept (runs_onto runs entries)
unfolding runs_onto
runs_onto-IsKept runs [] h = h
runs_onto-IsKept runs ((group, value) ∷ rest) h = elim (Option-cases (as_string value)) [
  | inl q ↦ rw (runs_onto, q) (runs_onto-IsKept runs rest h)
  | inr (run, q) ↦ elim (Bool-cases (is_kept group run)) [
    | inl k ↦
        rw (runs_onto, q, k)
          (runs_onto-IsKept (set runs group run) rest (set-IsKept runs group run k h))
    | inr k ↦ rw (runs_onto, q, k) (runs_onto-IsKept runs rest h)
  ]
]

abbrev pub AreKept : Option RunSelection → Type 0
AreKept none = Unit
AreKept (some saved) = All IsKept saved.selected_runs

-- Whatever the storage holds: a selection that is read back names no run by the empty text and no
-- group by a name that is special to objects of the language.
pub read_selection-AreKept :
    (parse : String → Option Json) (raw : Option String) → AreKept (read_selection parse raw)
unfolding read_selection
read_selection-AreKept parse raw =
    let text = get_or raw "" in
    elim (Option-cases (parse (if text == "" then "null" else text))) [
      | inl q ↦ rw (read_selection, q) tt
      | inr (saved, q) ↦ elim (Option-cases (group_of saved)) [
        | inl p ↦ rw (read_selection, q, p) tt
        | inr (group, p) ↦ elim (Option-cases (runs_field saved)) [
          | inl e ↦ rw (read_selection, q, p, e) tt
          | inr (runs, e) ↦ rw (read_selection, q, p, e) (runs_onto-IsKept [] (entries_of runs) tt)
        ]
      ]
    ]
