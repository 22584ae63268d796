-- ===== src/Workspace/Navigation.antt =====
-- apps/web/src/operator/navigation.ts: how a path is found among the pages.
use montlok_terminal.Prelude.{
  String, Bool, List, [], ◌∷◌, ◌++◌, Option, none, some, ◌==◌, string_eq, find?,
}
use montlok_terminal.Workspace.Menu.{NavigationPage, NavigationGroup, NavigationSection, navigation}

-- `flatMap` over the sections and their groups
unfoldable pub group_pages : List NavigationGroup → List NavigationPage
group_pages [] = []
group_pages (g ∷ gs) = g.pages ++ group_pages gs

unfoldable pub pages_of : List NavigationSection → List NavigationPage
unfolding group_pages
pages_of [] = []
pages_of (s ∷ ss) = group_pages s.groups ++ pages_of ss

unfoldable pub pages : List NavigationPage
unfolding pages_of navigation
pages = pages_of navigation

abbrev pub has_path : String → NavigationPage → Bool
has_path path page = page.path == path

unfoldable pub page_for : String → Option NavigationPage
unfolding pages
page_for path = find? (has_path path) pages

-- The loops of `breadcrumbs`, over the groups of a section and over the sections: the names of the
-- first page with the path, `none` where the loop goes on.
unfoldable pub crumbs_in : String → String → List NavigationGroup → Option (List String)
crumbs_in path section [] = none
crumbs_in path section (g ∷ gs) = elim (find? (has_path path) g.pages) [
  | some page ↦ some (section ∷ g.name ∷ page.name ∷ [])
  | none ↦ crumbs_in path section gs
]

unfoldable pub crumbs_from : String → List NavigationSection → List String
unfolding crumbs_in
crumbs_from path [] = []
crumbs_from path (s ∷ ss) = elim (crumbs_in path s.name s.groups) [
  | some names ↦ names
  | none ↦ crumbs_from path ss
]

unfoldable pub breadcrumbs : String → List String
unfolding crumbs_from navigation
breadcrumbs path = crumbs_from path navigation
