-- ===== src/Workspace/TabClosing.antt =====
-- apps/web/src/operator/quantWorkspaceModel.ts: closing a tab.
use montlok_terminal.Prelude.{
  ℕ, zero, suc, ◌-◌, String, ◌≡◌, refl, ◌⊎◌, inl, inr, true, false, not, ◌&&◌, List, [], ◌∷◌,
  Option, none, some, arith, if◌then◌else◌, ◌==◌, string_eq, get_elem?, filter, includes, All,
  length-filter-le, includes-filter, Distinct-filter, All-filter, Bool-cases, Option-cases,
}
use montlok_terminal.Workspace.Tabs.{
  pinned_workspace_tabs, is_pinned, find_index, neighbour, close_workspace_tab,
}
use montlok_terminal.Workspace.TabOpening.{IsPage, IsTabs}

includes-get_elem? :
    (xs : List String) (i : ℕ) (a : String) → get_elem? xs i ≡ some a → includes xs a ≡ true
includes-get_elem? [] i a h = absurd (ground arith)
includes-get_elem? (x ∷ xs) zero a h = ground (arith, string_eq.beq_iff x a)
includes-get_elem? (x ∷ xs) (suc i) a h = ground (arith, includes-get_elem? xs i a)

-- The pinned pages are not what is filtered out.
All-pinned-filtered :
    (xs ps : List String) (path : String)
    → All (λ p. includes xs p ≡ true) ps
    → All (λ p. (p == path) ≡ false) ps
    → All (λ p. includes (filter (λ item. not (item == path)) xs) p ≡ true) ps
All-pinned-filtered xs [] path h g = tt
All-pinned-filtered xs (p ∷ ps) path h g = (
  ground (arith, includes-filter (λ item. not (item == path)) xs p),
  All-pinned-filtered xs ps path h.1 g.1,
)

neighbour-includes :
    (next : List String) (index : Option ℕ)
    → includes next "/workspace/portfolio/overview" ≡ true
    → includes next (neighbour next index) ≡ true
unfolding neighbour
neighbour-includes next index h =
    let k : ℕ = elim index [ none ↦ 0 | some i ↦ i - 1 ] in
    elim (Option-cases (get_elem? next k)) [
      | inl q ↦ rw (q, neighbour) h
      | inr (a, q) ↦ rw (q, neighbour) (ground (arith, h, includes-get_elem? next k a q))
    ]

module _ (paths : List String) (path active : String) (t : IsTabs paths) where
  abbrev left : List String
  left = filter (λ item. not (item == path)) paths

  filtered-IsTabs : is_pinned path ≡ false → IsTabs left
  filtered-IsTabs q = record {
    registered = All-filter IsPage (λ item. not (item == path)) paths t.registered;
    distinct = Distinct-filter (λ item. not (item == path)) paths t.distinct;
    bounded = omega (arith, t.bounded, length-filter-le (λ item. not (item == path)) paths);
    pinned =
        All-pinned-filtered paths pinned_workspace_tabs path t.pinned
          (ground arith, (ground arith, (ground arith, tt)));
  }

  closed_pinned :
      is_pinned path ≡ true
      → close_workspace_tab paths path active ≡ record { paths = paths; active = active }
  unfolding close_workspace_tab
  closed_pinned q = ground arith

  closed_paths : is_pinned path ≡ false → (close_workspace_tab paths path active).paths ≡ left
  unfolding close_workspace_tab
  closed_paths q = ground arith

  closed_active :
      is_pinned path ≡ false
      → (close_workspace_tab paths path active).active ≡ (
          if active == path
          then neighbour left (find_index (λ item. item == path) paths)
          else active)
  unfolding close_workspace_tab
  closed_active q = ground arith

  -- Closing a tab keeps the tabs well formed; the tab is gone unless it is pinned; where the active
  -- tab was one of the tabs, the new active tab is one of those that are left, and a tab that is not
  -- closed stays active.
  pub close_workspace_tab-IsTabs :
      includes paths active ≡ true
      → let c = close_workspace_tab paths path active in
        IsTabs c.paths
        × (includes c.paths path ≡ (is_pinned path && includes paths path))
        × (includes c.paths c.active ≡ true)
        × (((active == path) ≡ true) ⊎ (c.active ≡ active))
  unfolding close_workspace_tab
  close_workspace_tab-IsTabs m = elim (Bool-cases (is_pinned path)) [
    | inl q ↦ rw (closed_pinned q) (t, ground arith, m, inr refl)
    | inr q ↦ (
      rw (closed_paths q) (filtered-IsTabs q),
      ground (
        arith,
        closed_paths q,
        includes-filter (λ item. not (item == path)) paths path,
        string_eq.beq_iff path path,
      ),
      rw (closed_paths q, closed_active q)
          (elim (Bool-cases (active == path)) [
            | inl p ↦ rw p (neighbour-includes left _ (filtered-IsTabs q).pinned.0)
            | inr p ↦
                ground (arith, p, includes-filter (λ item. not (item == path)) paths active, m)
          ]),
      ground arith,
    )
  ]
