-- ===== src/Workspace/TabOpening.antt =====
-- apps/web/src/operator/quantWorkspaceModel.ts: opening and loading tabs.
use native.Mathlib.Decide.{dec_lt}
use montlok_terminal.Prelude.{
  get_or, ℕ, ◌≤◌, ◌<◌, String, ◌≡◌, refl, ◌∙◌, ◌⊎◌, inl, inr, Bool, true, false, not, ◌||◌, List,
  [], ◌∷◌, ◌++◌, Option, some, arith, if◌then◌else◌, ◌==◌, string_eq, is_some, length, includes,
  Distinct, All, length-append, includes-append, Distinct-append_one, All-append, Bool-cases,
  Option-cases,
}
use montlok_terminal.Json.{Json, array_items, as_string}
use montlok_terminal.Workspace.Navigation.{page_for}
use montlok_terminal.Workspace.Tabs.{
  pinned_workspace_tabs, workspace_tab_limit, is_pinned, find_index, remove_at, splice_one,
  open_workspace_tab, open_all, load_workspace_tabs,
}
use montlok_terminal.Workspace.Removal.{
  remove_first, remove_at-find_index, find_index-none, length-remove_first, remove_first-append,
  includes-remove_first, includes-remove_first-le, Distinct-remove_first, All-remove_first,
  length-remove_self, All-includes-remove,
}

abbrev pub IsPage : String → Type 0
IsPage path = is_some (page_for path) ≡ true

-- The tabs are pages, each once, at most twelve, and the pinned pages are among them.
pub record IsTabs (paths : List String) : Type 0 where
  pub registered : All IsPage paths
  pub distinct : Distinct paths
  pub bounded : length paths ≤ workspace_tab_limit
  pub pinned : All (λ p. includes paths p ≡ true) pinned_workspace_tabs

-- Distinct items that all occur in a list are no more than its items.
length-le_of_All-includes :
    (xs ys : List String) → Distinct xs → All (λ a. includes ys a ≡ true) xs → length xs ≤ length ys
length-le_of_All-includes [] ys d h = omega arith
length-le_of_All-includes (x ∷ xs) ys d h = omega (
  arith,
  length-remove_self ys x h.0,
  length-le_of_All-includes xs (remove_first (λ y. y == x) ys) d.1
      (All-includes-remove xs ys x d.0 h.1),
)

abbrev unpinned : String → Bool
unpinned path = not (is_pinned path)

All-pinned :
    (xs : List String) → All (λ x. unpinned x ≡ false) xs → All (λ x. is_pinned x ≡ true) xs
All-pinned [] h = tt
All-pinned (x ∷ xs) h = (ground (arith, h.0), All-pinned xs h.1)

-- More than three distinct tabs hold one that is not pinned.
unpinned_exists :
    (xs : List String) → Distinct xs → 3 < length xs → (i : ℕ) × (find_index unpinned xs ≡ some i)
unpinned_exists xs d h = elim (Option-cases (find_index unpinned xs)) [
  | inl q ↦ absurd (
      omega (
        arith,
        length-le_of_All-includes xs pinned_workspace_tabs d
            (All-pinned xs (find_index-none unpinned xs q)),
      ))
  | inr (i, q) ↦ (i, q)
]

-- A pinned tab is no candidate for removal, so it stays among the tabs.
All-pinned-kept :
    (xs : List String) (ps : List String)
    → All (λ p. unpinned p ≡ false) ps
    → All (λ p. includes xs p ≡ true) ps
    → All (λ p. includes (remove_first unpinned xs) p ≡ true) ps
All-pinned-kept xs [] g h = tt
All-pinned-kept xs (p ∷ ps) g h =
    (ground (arith, includes-remove_first unpinned xs p g.0, h.0), All-pinned-kept xs ps g.1 h.1)

All-includes-append :
    (xs ys ps : List String)
    → All (λ p. includes xs p ≡ true) ps
    → All (λ p. includes (xs ++ ys) p ≡ true) ps
All-includes-append xs ys [] h = tt
All-includes-append xs ys (p ∷ ps) h =
    (ground (arith, includes-append xs ys p, h.0), All-includes-append xs ys ps h.1)

module _ (paths : List String) (path : String) (t : IsTabs paths) where
  -- A page that is no tab yet and fits.
  appended-IsTabs :
      IsPage path
      → includes paths path ≡ false
      → length (paths ++ path ∷ []) ≤ workspace_tab_limit
      → IsTabs (paths ++ path ∷ [])
  appended-IsTabs g n le = record {
    registered = All-append IsPage paths (path ∷ []) t.registered (g, tt);
    distinct = Distinct-append_one paths path t.distinct n;
    bounded = le;
    pinned = All-includes-append paths (path ∷ []) pinned_workspace_tabs t.pinned;
  }

  -- A page that is no tab yet and does not fit: the oldest tab that is not pinned makes room.
  replaced-IsTabs :
      IsPage path
      → includes paths path ≡ false
      → workspace_tab_limit < length (paths ++ path ∷ [])
      → (i : ℕ) × (find_index unpinned (paths ++ path ∷ []) ≡ some i)
        × IsTabs (remove_at i (paths ++ path ∷ []))
        × (includes (remove_at i (paths ++ path ∷ [])) path ≡ true)
  replaced-IsTabs g n lt =
      let next = paths ++ path ∷ [] in
      let rest = remove_first unpinned paths in
      let total = length-append paths (path ∷ []) in
      let (j, old) = unpinned_exists paths t.distinct (omega (arith, total)) in
      let (i, first) =
        unpinned_exists next (Distinct-append_one paths path t.distinct n) (omega (arith, total)) in
      let same : remove_at i next ≡ rest ++ path ∷ [] =
        remove_at-find_index unpinned next i first
        ∙ remove_first-append unpinned paths (path ∷ []) j old in
      (
        i,
        first,
        rw same (record {
          registered =
              All-append IsPage rest (path ∷ [])
                (All-remove_first IsPage unpinned paths t.registered) (g, tt);
          distinct =
              Distinct-append_one rest path (Distinct-remove_first unpinned paths t.distinct)
                (includes-remove_first-le unpinned paths path n);
          bounded = omega (
            arith,
            t.bounded,
            length-append rest (path ∷ []),
            length-remove_first unpinned paths j old,
          );
          pinned =
              All-includes-append rest (path ∷ []) pinned_workspace_tabs
                (All-pinned-kept paths pinned_workspace_tabs (refl, (refl, (refl, tt))) t.pinned);
        }),
        rw same
            (ground (arith, includes-append rest (path ∷ []) path, string_eq.beq_iff path path)),
      )

  open_same :
      (is_some (page_for path) ≡ false) ⊎ (includes paths path ≡ true)
      → open_workspace_tab paths path ≡ paths
  unfolding open_workspace_tab
  open_same h = ground arith

  open_fitting :
      IsPage path
      → includes paths path ≡ false
      → length (paths ++ path ∷ []) ≤ workspace_tab_limit
      → open_workspace_tab paths path ≡ paths ++ path ∷ []
  unfolding open_workspace_tab
  open_fitting g n le = ground arith

  open_full :
      (i : ℕ)
      → IsPage path
      → includes paths path ≡ false
      → workspace_tab_limit < length (paths ++ path ∷ [])
      → find_index unpinned (paths ++ path ∷ []) ≡ some i
      → open_workspace_tab paths path ≡ remove_at i (paths ++ path ∷ [])
  unfolding open_workspace_tab splice_one
  open_full i g n lt q = ground arith

  -- Opening a path keeps the tabs well formed, and afterwards the path is a tab
  -- exactly if it is a page or was a tab.
  pub open_workspace_tab-IsTabs :
      IsTabs (open_workspace_tab paths path)
      × (includes (open_workspace_tab paths path) path
          ≡ (is_some (page_for path) || includes paths path))
  open_workspace_tab-IsTabs = elim (Bool-cases (is_some (page_for path))) [
    | inr g ↦ rw (open_same (inl g)) (t, ground arith)
    | inl g ↦ elim (Bool-cases (includes paths path)) [
      | inl m ↦ rw (open_same (inr m)) (t, ground arith)
      | inr n ↦ elim (dec_lt workspace_tab_limit (length (paths ++ path ∷ []))) [
        | yes lt ↦
            let (i, first, tabs, has) = replaced-IsTabs g n lt in
            rw (open_full i g n lt first) (tabs, ground arith)
        | no le ↦
            let fits : length (paths ++ path ∷ []) ≤ workspace_tab_limit = omega arith in
            rw (open_fitting g n fits) (
              appended-IsTabs g n fits,
              ground (arith, includes-append paths (path ∷ []) path, string_eq.beq_iff path path),
            )
      ]
    ]
  ]

open_all-IsTabs : (tabs : List String) (js : List Json) → IsTabs tabs → IsTabs (open_all tabs js)
unfolding open_all
open_all-IsTabs tabs [] t = t
open_all-IsTabs tabs (j ∷ js) t = elim (Option-cases (as_string j)) [
  | inl q ↦ rw q (open_all-IsTabs tabs js t)
  | inr (path, q) ↦
      rw q (
        open_all-IsTabs (open_workspace_tab tabs path) js (open_workspace_tab-IsTabs tabs path t).0)
]

pinned-IsTabs : IsTabs pinned_workspace_tabs
unfolding page_for
pinned-IsTabs = record {
  registered = (refl, (refl, (refl, tt)));
  distinct = (refl, (refl, (refl, tt)));
  bounded = omega arith;
  pinned = (refl, (refl, (refl, tt)));
}

-- Whatever the storage holds, a broken text, another value or any list, the tabs that are loaded are
-- well formed: registered pages, each once, at most twelve, with all the pinned ones.
pub load_workspace_tabs-IsTabs :
    (parse : String → Option Json) (raw : Option String) → IsTabs (load_workspace_tabs parse raw)
unfolding load_workspace_tabs
load_workspace_tabs-IsTabs parse raw =
    let text = get_or raw "" in
    elim (Option-cases (parse (if text == "" then "[]" else text))) [
      | inl q ↦ rw (q, load_workspace_tabs) pinned-IsTabs
      | inr (parsed, q) ↦ elim (Option-cases (array_items parsed)) [
        | inl r ↦ rw (q, load_workspace_tabs, r) pinned-IsTabs
        | inr (js, r) ↦
            rw (q, load_workspace_tabs, r) (open_all-IsTabs pinned_workspace_tabs js pinned-IsTabs)
      ]
    ]
