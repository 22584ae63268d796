-- ===== src/Workspace/Layouts.antt =====
-- apps/web/src/operator/dockingModel.ts: what a layout that is shown consists of.
use montlok_terminal.Prelude.{
  ◌≤◌, String, ◌≡◌, refl, sym, ◌∙◌, inl, inr, true, false, not, ◌&&◌, List, [], ◌∷◌, ◌++◌, Option,
  none, some, map, arith, ltb, ◌==◌, nat_eq, string_eq, length, includes, All, Distinct,
  Option-cases, Bool-cases, append_assoc, append-nil, includes-append,
}
use montlok_terminal.Workspace.Navigation.{page_for}
use montlok_terminal.Workspace.Docking.{
  Tab, default_tabs, Visit, view_names, is_known, visit_tab, visit_tabs, count, is_layout,
  utf16_length, load_docking_model,
}

abbrev pub ids_of : List Tab → List String
ids_of = map (λ (tab : Tab). tab.id)

abbrev pub components_of : List Tab → List String
components_of = map (λ (tab : Tab). tab.component)

-- At most sixteen tabs with distinct ids: each a route of a registered page under the id of its path,
-- or one of the three views; each view once, and a route among them.
pub record IsLayout (tabs : List Tab) : Type 0 where
  pub known : All (λ tab. is_known tab ≡ true) tabs
  pub distinct : Distinct (ids_of tabs)
  pub bounded : length tabs ≤ 16
  pub views : All (λ name. count name (components_of tabs) ≡ 1) view_names
  pub routed : includes (components_of tabs) "route" ≡ true

-- No tab has one of the ids.
abbrev Apart : List String → List Tab → Type 0
Apart ids tabs = All (λ (tab : Tab). includes ids tab.id ≡ false) tabs

Apart-append_one :
    (ids : List String) (id : String) (tabs : List Tab)
    → Apart (ids ++ id ∷ []) tabs
    → Apart ids tabs × (includes (ids_of tabs) id ≡ false)
Apart-append_one ids id [] h = (tt, refl)
Apart-append_one ids id (tab ∷ tabs) h =
    let (apart, absent) = Apart-append_one ids id tabs h.1 in
    (
      (ground (arith, h.0, includes-append ids (id ∷ []) tab.id), apart),
      ground (
        arith,
        absent,
        h.0,
        includes-append ids (id ∷ []) tab.id,
        string_eq.beq_iff id tab.id,
        string_eq.beq_iff tab.id id,
      ),
    )

-- What a visit that stays valid has seen.
pub record HasSeen (v : Visit) (tabs : List Tab) : Type 0 where
  before : v.valid ≡ true
  known : All (λ tab. is_known tab ≡ true) tabs
  apart : Apart v.ids tabs
  distinct : Distinct (ids_of tabs)
  ids : (visit_tabs v tabs).ids ≡ v.ids ++ ids_of tabs
  components : (visit_tabs v tabs).components ≡ v.components ++ components_of tabs

visit_tabs-HasSeen :
    (v : Visit) (tabs : List Tab) → (visit_tabs v tabs).valid ≡ true → HasSeen v tabs
unfolding visit_tabs visit_tab
visit_tabs-HasSeen v [] h = record {
  before = h;
  known = tt;
  apart = tt;
  distinct = tt;
  ids = sym (append-nil v.ids);
  components = sym (append-nil v.components);
}
visit_tabs-HasSeen v (tab ∷ tabs) h =
    let seen = visit_tabs-HasSeen (visit_tab v tab) tabs h in
    let new : includes v.ids tab.id ≡ false = ground (arith, seen.before) in
    let (apart, absent) = Apart-append_one v.ids tab.id tabs (rw new at seen.apart) in
    record {
      before = ground (arith, seen.before);
      known = (ground (arith, seen.before), seen.known);
      apart = (new, apart);
      distinct = (absent, seen.distinct);
      ids = seen.ids ∙ rw new (append_assoc v.ids (tab.id ∷ []) (ids_of tabs));
      components =
          seen.components ∙ append_assoc v.components (tab.component ∷ []) (components_of tabs);
    }

length-ids_of : (tabs : List Tab) → length (ids_of tabs) ≡ length tabs
length-ids_of [] = refl
length-ids_of (tab ∷ tabs) = ground (arith, length-ids_of tabs)

is_layout-IsLayout : (tabs : List Tab) → is_layout tabs ≡ true → IsLayout tabs
unfolding is_layout
is_layout-IsLayout tabs h =
    let start : Visit = record { valid = true; ids = []; components = [] } in
    let seen = visit_tabs-HasSeen start tabs (ground (arith, h)) in
    let g = rw (is_layout, seen.ids, seen.components) at h in
    record {
      known = seen.known;
      distinct = seen.distinct;
      bounded = ground (arith, g, length-ids_of tabs);
      views = (ground (arith, g), (ground (arith, g), (ground (arith, g), tt)));
      routed = ground (arith, g);
    }

default_tabs-IsLayout : IsLayout default_tabs
unfolding default_tabs is_known page_for
default_tabs-IsLayout = record {
  known = (refl, (refl, (refl, (refl, (refl, (refl, tt))))));
  distinct = (refl, (refl, (refl, (refl, (refl, (refl, tt))))));
  bounded = omega arith;
  views = (refl, (refl, (refl, tt)));
  routed = refl;
}

-- Whatever is stored and however the layout library reads it, the panes that are shown are a layout:
-- each of the three views once, routes of registered pages only, and no two tabs under one id.
pub load_docking_model-IsLayout :
    {M : Type 0} (from_json : String → Option (M × List Tab)) (default : M) (raw : Option String)
    → IsLayout (load_docking_model from_json default raw).1
unfolding load_docking_model
load_docking_model-IsLayout from_json default none = default_tabs-IsLayout
load_docking_model-IsLayout from_json default (some raw) =
    elim (Bool-cases (not (raw == "") && ltb (utf16_length raw) 256000)) [
      | inr q ↦ rw (load_docking_model, q) default_tabs-IsLayout
      | inl q ↦ elim (Option-cases (from_json raw)) [
        | inl p ↦ rw (load_docking_model, q, p) default_tabs-IsLayout
        | inr ((m, tabs), p) ↦ elim (Bool-cases (is_layout tabs)) [
          | inl e ↦ rw (load_docking_model, q, p, e) (is_layout-IsLayout tabs e)
          | inr e ↦ rw (load_docking_model, q, p, e) default_tabs-IsLayout
        ]
      ]
    ]
