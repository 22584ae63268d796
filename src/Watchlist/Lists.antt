-- ===== src/Watchlist/Lists.antt =====
-- apps/web/src/operator/watchlistModel.ts: loading, saving, adding, removing, and the rows.
use montlok_terminal.Prelude.{
  ℕ, String, Bool, not, ◌||◌, List, [], ◌∷◌, ◌++◌, Option, none, some, if◌then◌else◌, leb, ◌==◌,
  nat_eq, string_eq, includes, length, take, filter, get_or,
}
use montlok_terminal.Json.{Json, Items, array, cons, nil, string, array_items, as_string}
use montlok_terminal.Watchlist.Symbols.{normalize_symbol}

abbrev pub watchlist_limit : ℕ
watchlist_limit = 12

abbrev pub default_watchlist : List String
default_watchlist = "BTC-USDT" ∷ "ETH-USDT" ∷ "SOL-USDT" ∷ "OKB-USDT" ∷ []

-- the two filters and the map: the items that are texts and name an instrument
unfoldable pub symbols_of : List Json → List String
symbols_of [] = []
symbols_of (j ∷ js) = elim (as_string j) [
  | none ↦ symbols_of js
  | some text ↦ elim (normalize_symbol text) [
    | none ↦ symbols_of js
    | some symbol ↦ symbol ∷ symbols_of js
  ]
]

-- `[...new Set(symbols)]`
unfoldable pub unique_onto : List String → List String → List String
unique_onto seen [] = seen
unique_onto seen (x ∷ xs) = unique_onto (if includes seen x then seen else seen ++ x ∷ []) xs

-- `raw` is the stored text, if there is a storage that gives one.
unfoldable pub load_watchlist : (String → Option Json) → Option String → List String
load_watchlist parse raw = elim (parse (get_or raw "")) [
  | none ↦ default_watchlist
  | some parsed ↦ elim (array_items parsed) [
    | none ↦ default_watchlist
    | some js ↦ elim (symbols_of js) [
      | [] ↦ default_watchlist
      | x ∷ xs ↦ take watchlist_limit (unique_onto [] (x ∷ xs))
    ]
  ]
]

unfoldable pub add_symbol : List String → String → List String
add_symbol symbols value = elim (normalize_symbol value) [
  | none ↦ symbols
  | some symbol ↦
      if includes symbols symbol || leb watchlist_limit (length symbols)
      then symbols
      else symbols ++ symbol ∷ []
]

unfoldable pub remove_symbol : List String → String → List String
remove_symbol symbols symbol = filter (λ item. not (item == symbol)) symbols

abbrev pub to_items : List String → Items
to_items [] = nil
to_items (x ∷ xs) = cons (string x) (to_items xs)

-- `stored` is what the storage gives for the key; a storage that throws keeps it.
unfoldable pub save_watchlist : (Json → String) → Bool → Option String → List String → Option String
save_watchlist stringify works stored symbols =
    if works then some (stringify (array (to_items symbols))) else stored
