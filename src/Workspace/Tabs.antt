-- ===== src/Workspace/Tabs.antt =====
-- apps/web/src/operator/quantWorkspaceModel.ts: the tabs of the workspace.
use Prim.Native.String.{◌++◌ as ◌+s◌}
use montlok_terminal.Prelude.{
  ℕ, zero, suc, ◌-◌, String, Bool, not, ◌||◌, List, [], ◌∷◌, ◌++◌, Option, none, some,
  if◌then◌else◌, ltb, ◌==◌, string_eq, nat_eq, get_or, is_some, length, get_elem?, filter, includes,
}
use montlok_terminal.Json.{Json, array_items, as_string}
use montlok_terminal.Workspace.Navigation.{page_for, breadcrumbs}

abbrev pub pinned_workspace_tabs : List String
pinned_workspace_tabs =
    "/workspace/portfolio/overview" ∷ "/strategies/groups/overview" ∷ "/trade/spot/terminal" ∷ []

abbrev pub workspace_tab_limit : ℕ
workspace_tab_limit = 12

abbrev pub is_pinned : String → Bool
is_pinned path = includes pinned_workspace_tabs path

-- `names.slice(-2).join(' · ')`
unfoldable pub last_two : List String → String
last_two [] = ""
last_two (a ∷ []) = a
last_two (a ∷ b ∷ []) = a +s " · " +s b
last_two (a ∷ b ∷ c ∷ names) = last_two (b ∷ c ∷ names)

unfoldable pub workspace_tab_label : String → String
workspace_tab_label path =
    let crumbs = last_two (breadcrumbs path) in
    let name = get_or (elim (page_for path) [ none ↦ none | some p ↦ some p.name ]) "" in
    if not (crumbs == "") then crumbs else if not (name == "") then name else path

abbrev pub opens : Option ℕ → Option ℕ
opens none = none
opens (some i) = some (suc i)

-- `findIndex`, `indexOf`
unfoldable pub find_index : (String → Bool) → List String → Option ℕ
find_index p [] = none
find_index p (x ∷ xs) = if p x then some 0 else opens (find_index p xs)

abbrev pub remove_at : ℕ → List String → List String
remove_at i [] = []
remove_at zero (x ∷ xs) = xs
remove_at (suc i) (x ∷ xs) = x ∷ remove_at i xs

abbrev pub drop_last : List String → List String
drop_last [] = []
drop_last (x ∷ []) = []
drop_last (x ∷ y ∷ xs) = x ∷ drop_last (y ∷ xs)

-- `next.splice(index, 1)`, where -1 takes the last item
unfoldable pub splice_one : Option ℕ → List String → List String
splice_one none xs = drop_last xs
splice_one (some i) xs = remove_at i xs

unfoldable pub open_workspace_tab : List String → String → List String
open_workspace_tab paths path =
    if not (is_some (page_for path)) || includes paths path
    then paths
    else let next = paths ++ path ∷ [] in
      if ltb workspace_tab_limit (length next)
      then splice_one (find_index (λ item. not (is_pinned item)) next) next
      else next

-- The `reduce` of `loadWorkspaceTabs`: items that are no texts are passed over.
unfoldable pub open_all : List String → List Json → List String
open_all tabs [] = tabs
open_all tabs (j ∷ js) =
    open_all (elim (as_string j) [ none ↦ tabs | some path ↦ open_workspace_tab tabs path ]) js

unfoldable pub load_workspace_tabs : (String → Option Json) → Option String → List String
load_workspace_tabs parse raw =
    let text = get_or raw "" in
    elim (parse (if text == "" then "[]" else text)) [
      | none ↦ pinned_workspace_tabs
      | some parsed ↦ elim (array_items parsed) [
        | none ↦ pinned_workspace_tabs
        | some js ↦ open_all pinned_workspace_tabs js
      ]
    ]

pub record Closed : Type 0 where
  pub paths : List String
  pub active : String

-- `next[Math.max(0, index - 1)] || PINNED_WORKSPACE_TABS[0]`
unfoldable pub neighbour : List String → Option ℕ → String
neighbour next index =
    let found = get_or (get_elem? next (elim index [ none ↦ 0 | some i ↦ i - 1 ])) "" in
    if found == "" then "/workspace/portfolio/overview" else found

unfoldable pub close_workspace_tab : List String → String → String → Closed
close_workspace_tab paths path active =
    if is_pinned path
    then record { paths = paths; active = active }
    else let next = filter (λ item. not (item == path)) paths in
      record {
        paths = next;
        active =
            if active == path
            then neighbour next (find_index (λ item. item == path) paths)
            else active;
      }
