-- ===== src/Workspace/Lookup.antt =====
-- apps/web/src/operator/navigation.ts: pages and their breadcrumbs.
use montlok_terminal.Prelude.{
  String, ◌≡◌, refl, inl, inr, Bool, List, [], ◌∷◌, ◌++◌, Option, none, some, map, arith, string_eq,
  find?, Distinct, Option-cases,
}
use montlok_terminal.Workspace.Menu.{NavigationPage, NavigationGroup, NavigationSection, navigation}
use montlok_terminal.Workspace.Navigation.{
  group_pages, pages_of, pages, has_path, page_for, crumbs_in, crumbs_from, breadcrumbs,
}

find?-append :
    (p : NavigationPage → Bool) (xs ys : List NavigationPage)
    → find? p (xs ++ ys) ≡ (elim (find? p xs) [ some x ↦ some x | none ↦ find? p ys ])
find?-append p [] ys = refl
find?-append p (x ∷ xs) ys = ground (arith, find?-append p xs ys)

-- What the breadcrumbs of a path are, given the page that is found for it.
abbrev pub Names : Option NavigationPage → List String → Type 0
Names none crumbs = crumbs ≡ []
Names (some page) crumbs =
    (section : String) × (group : String) × (crumbs ≡ section ∷ group ∷ page.name ∷ [])

abbrev NamesIn : Option NavigationPage → Option (List String) → Type 0
NamesIn none crumbs = crumbs ≡ none
NamesIn (some page) crumbs =
    (section : String) × (group : String) × (crumbs ≡ some (section ∷ group ∷ page.name ∷ []))

crumbs_in-NamesIn :
    (path section : String) (gs : List NavigationGroup)
    → NamesIn (find? (has_path path) (group_pages gs)) (crumbs_in path section gs)
unfolding crumbs_in group_pages
crumbs_in-NamesIn path section [] = refl
crumbs_in-NamesIn path section (g ∷ gs) = elim (Option-cases (find? (has_path path) g.pages)) [
  | inl q ↦
      rw (find?-append (has_path path) g.pages (group_pages gs), q, crumbs_in)
        (crumbs_in-NamesIn path section gs)
  | inr (page, q) ↦
      rw (find?-append (has_path path) g.pages (group_pages gs), q, crumbs_in)
        (section, g.name, refl)
]

join-Names :
    (o : Option NavigationPage) (c : Option (List String)) (o' : Option NavigationPage)
    (c' : List String)
    → NamesIn o c
    → Names o' c'
    → Names (elim o [ some x ↦ some x | none ↦ o' ]) (elim c [ some names ↦ names | none ↦ c' ])
join-Names none c o' c' h k = rw h k
join-Names (some page) c o' c' h k = (h.0, h.1, rw (h.2))

crumbs_from-Names :
    (path : String) (ss : List NavigationSection)
    → Names (find? (has_path path) (pages_of ss)) (crumbs_from path ss)
unfolding crumbs_from pages_of
crumbs_from-Names path [] = refl
crumbs_from-Names path (s ∷ ss) =
    rw (find?-append (has_path path) (group_pages s.groups) (pages_of ss)) (
      join-Names (find? (has_path path) (group_pages s.groups)) (crumbs_in path s.name s.groups)
        (find? (has_path path) (pages_of ss)) (crumbs_from path ss)
        (crumbs_in-NamesIn path s.name s.groups) (crumbs_from-Names path ss))

-- The breadcrumbs of a path are empty exactly where no page has the path; otherwise they end in the
-- name of the page that `pageFor` finds, behind the names of a section and a group.
pub breadcrumbs-Names : (path : String) → Names (page_for path) (breadcrumbs path)
unfolding page_for breadcrumbs pages
breadcrumbs-Names path = crumbs_from-Names path navigation

-- No two pages share a path, so the page that is found first is the only one.
pub pages-Distinct : Distinct (map (λ (page : NavigationPage). page.path) pages)
unfolding pages
pages-Distinct = ground arith
