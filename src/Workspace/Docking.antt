-- ===== src/Workspace/Docking.antt =====
-- apps/web/src/operator/dockingModel.ts: the saved layout of the panes. The layout library is outside:
-- `from_json` reads a text as a model with its tabs, in the order in which they are visited, `none`
-- where the text or the model is broken. A text that a tab lacks is the empty text.
use Prim.Native.Char.{code}
use Prim.Native.String.{String, [] as empty, ◌∷◌ as ◌∷s◌, ◌++◌ as ◌+s◌}
use montlok_terminal.Prelude.{
  ℕ, ◌+◌, Bool, true, false, not, ◌&&◌, ◌||◌, List, [], ◌∷◌, ◌++◌, Option, none, some, map,
  if◌then◌else◌, ltb, leb, ◌==◌, nat_eq, string_eq, is_some, length, filter, includes, all,
}
use montlok_terminal.Workspace.Navigation.{page_for}
use montlok_terminal.Workspace.Tabs.{pinned_workspace_tabs, is_pinned, workspace_tab_label}

pub record Tab : Type 0 where
  pub id : String
  pub name : String
  pub component : String
  -- `config.path`, if it is a text
  pub path : Option String
  pub enable_close : Option Bool
  pub enable_render_on_demand : Option Bool

abbrev pub route_tab_id : String → String
route_tab_id path = "route:" +s path

unfoldable pub route_tab : String → Tab
route_tab path = record {
  id = route_tab_id path;
  name = workspace_tab_label path;
  component = "route";
  path = some path;
  enable_close = some (not (is_pinned path));
  enable_render_on_demand = some true;
}

abbrev view_tab : String → String → Option Bool → Tab
view_tab id name on_demand = record {
  id = id;
  name = name;
  component = id;
  path = none;
  enable_close = none;
  enable_render_on_demand = on_demand;
}

pub record DockingGlobal : Type 0 where
  pub tab_enable_close : Bool
  pub tab_enable_rename : Bool
  pub tab_enable_popout : Bool
  pub tab_set_enable_maximize : Bool
  pub tab_set_min_width : ℕ
  pub tab_set_min_height : ℕ

-- A row or a set of tabs, with its id and its weight.
mutual
  pub data Pane : Type 0 where
    row : String → ℕ → Panes → Pane
    tabset : String → ℕ → List Tab → Pane

  pub data Panes : Type 0 where
    no_panes : Panes
    panes : Pane → Panes → Panes

pub record DockingLayout : Type 0 where
  pub global : DockingGlobal
  pub borders : List Pane
  -- the children of the outer row
  pub children : Panes

unfoldable pub default_docking_layout : DockingLayout
unfolding route_tab
default_docking_layout = record {
  global = record {
    tab_enable_close = false;
    tab_enable_rename = false;
    tab_enable_popout = true;
    tab_set_enable_maximize = true;
    tab_set_min_width = 200;
    tab_set_min_height = 100;
  };
  borders = [];
  children =
      panes
        (row "analysis" 78 (
          panes (tabset "market-tabset" 55 (view_tab "market" "行情与策略标的" (some false) ∷ [])) (
            panes
              (tabset "workspace-tabset" 45
                (map route_tab pinned_workspace_tabs ++ view_tab "events" "事件与订单" none ∷ []))
              no_panes)))
        (panes (tabset "controls-tabset" 22 (view_tab "controls" "运行上下文与控制" (some false) ∷ []))
          no_panes);
}

-- The tabs in the order in which they are visited.
abbrev mutual
  pub tabs_of_pane : Pane → List Tab
  tabs_of_pane (row id weight ps) = tabs_of_panes ps
  tabs_of_pane (tabset id weight tabs) = tabs

  pub tabs_of_panes : Panes → List Tab
  tabs_of_panes no_panes = []
  tabs_of_panes (panes p ps) = tabs_of_pane p ++ tabs_of_panes ps

unfoldable pub default_tabs : List Tab
unfolding default_docking_layout
default_tabs = tabs_of_panes default_docking_layout.children

pub record Visit : Type 0 where
  pub valid : Bool
  pub ids : List String
  pub components : List String

abbrev pub view_names : List String
view_names = "market" ∷ "controls" ∷ "events" ∷ []

-- what a tab has to be by itself
unfoldable pub is_known : Tab → Bool
is_known tab =
    if tab.component == "route"
    then (elim tab.path as (λ x. Bool) [
      | none ↦ false
      | some path ↦ is_some (page_for path) && tab.id == route_tab_id path
    ])
    else includes view_names tab.component

unfoldable pub visit_tab : Visit → Tab → Visit
visit_tab v tab = record {
  valid = v.valid && not (tab.id == "" || includes v.ids tab.id) && is_known tab;
  ids = if includes v.ids tab.id then v.ids else v.ids ++ tab.id ∷ [];
  components = v.components ++ tab.component ∷ [];
}

unfoldable pub visit_tabs : Visit → List Tab → Visit
visit_tabs v [] = v
visit_tabs v (tab ∷ tabs) = visit_tabs (visit_tab v tab) tabs

abbrev pub count : String → List String → ℕ
count name names = length (filter (λ c. c == name) names)

unfoldable pub is_layout : List Tab → Bool
is_layout tabs =
    let v = visit_tabs (record { valid = true; ids = []; components = [] }) tabs in
    v.valid
    && leb (length v.ids) 16
    && all (λ name. count name v.components == 1) view_names
    && includes v.components "route"

-- `raw.length`: a character beyond U+FFFF counts twice
unfoldable pub utf16_length : String → ℕ
utf16_length empty = 0
utf16_length (c ∷s s) = (if ltb 65535 (code c) then 2 else 1) + utf16_length s

unfoldable pub load_docking_model :
    {M : Type 0} → (String → Option (M × List Tab)) → M → Option String → M × List Tab
load_docking_model from_json default none = (default, default_tabs)
load_docking_model from_json default (some raw) =
    if not (raw == "") && ltb (utf16_length raw) 256000
    then (elim (from_json raw) [
      | none ↦ (default, default_tabs)
      | some (m, tabs) ↦ if is_layout tabs then (m, tabs) else (default, default_tabs)
    ])
    else (default, default_tabs)
