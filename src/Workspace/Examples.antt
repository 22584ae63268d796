-- ===== src/Workspace/Examples.antt =====
-- apps/web/src/operator: the navigation and the tabs on concrete inputs.
use montlok_terminal.Prelude.{
  ℕ, String, ◌≡◌, true, ◌||◌, List, [], ◌∷◌, Option, none, some, string_eq, is_some, includes,
}
use montlok_terminal.Json.{Json, cons, nil}
use montlok_terminal.Workspace.Navigation.{page_for}
use montlok_terminal.Workspace.Destination.{Item, destination}
use montlok_terminal.Workspace.Reach.{Lands, destination-Lands}
use montlok_terminal.Workspace.Tabs.{open_workspace_tab, load_workspace_tabs}
use montlok_terminal.Workspace.TabOpening.{
  IsTabs, open_workspace_tab-IsTabs, load_workspace_tabs-IsTabs,
}
use montlok_terminal.Workspace.Docking.{Tab, route_tab, load_docking_model}
use montlok_terminal.Workspace.Layouts.{IsLayout, load_docking_model-IsLayout}

abbrev spot_orders : String
spot_orders = "/trade/spot/orders"

-- A parser that reads any text as one page and one number.
abbrev parse : String → Option Json
parse text = some (Json.array (cons (Json.string spot_orders) (cons (Json.bool true) nil)))

abbrev loaded : List String
loaded = load_workspace_tabs parse (some "[…]")

abbrev spot_item : Item
spot_item = record {
  name = "spot orders";
  kind = some "service";
  path = some "/orders";
  section = none;
}

destination-Lands_example : Lands (destination spot_item)
destination-Lands_example = destination-Lands spot_item

open_workspace_tab-IsTabs_example :
    IsTabs (open_workspace_tab loaded "/trade/swap/orders")
    × (includes (open_workspace_tab loaded "/trade/swap/orders") "/trade/swap/orders"
        ≡ (is_some (page_for "/trade/swap/orders") || includes loaded "/trade/swap/orders"))
open_workspace_tab-IsTabs_example =
    open_workspace_tab-IsTabs loaded "/trade/swap/orders"
      (load_workspace_tabs-IsTabs parse (some "[…]"))

-- A library that reads any text as a layout of one route tab.
abbrev one_tab : String → Option (ℕ × List Tab)
one_tab text = some (1, route_tab "/trade/spot/orders" ∷ [])

load_docking_model-IsLayout_example : IsLayout (load_docking_model one_tab 0 (some "{…}")).1
load_docking_model-IsLayout_example = load_docking_model-IsLayout one_tab 0 (some "{…}")
