-- ===== src/Watchlist/Examples.antt =====
-- apps/web/src/operator/watchlistModel.ts: names and lists on concrete inputs.
use montlok_terminal.Prelude.{
  String, ◌≡◌, refl, Bool, true, List, [], ◌∷◌, Option, none, some, ◌==◌, string_eq, arith,
  if◌then◌else◌,
}
use montlok_terminal.Json.{Json, array}
use montlok_terminal.Watchlist.Symbols.{matches_from}
use montlok_terminal.Watchlist.Lists.{load_watchlist, save_watchlist, to_items}
use montlok_terminal.Watchlist.Saving.{load_watchlist-save_watchlist}
use montlok_terminal.Watchlist.Keeping.{IsWatchlist}

-- A reader of any text that finds nothing in it.
abbrev no_parse : String → Option Json
no_parse text = none

abbrev two : List String
two = "BTC-USDT" ∷ "ETH-USDT" ∷ []

two-IsWatchlist : IsWatchlist two
unfolding matches_from
two-IsWatchlist = record {
  names = (refl, (refl, tt));
  distinct = (refl, (refl, tt));
  bounded = omega arith;
}

-- A text that stands for the two instruments, and its reader.
abbrev two_text : Json → String
two_text j = "[BTC-USDT, ETH-USDT]"

abbrev read_two : String → Option Json
read_two text = if text == "[BTC-USDT, ETH-USDT]" then some (array (to_items two)) else none

load_watchlist-save_watchlist_example :
    load_watchlist read_two (save_watchlist two_text true none two) ≡ two
load_watchlist-save_watchlist_example =
    load_watchlist-save_watchlist read_two two_text none "BTC-USDT" ("ETH-USDT" ∷ []) refl
      two-IsWatchlist

abbrev same_text : String → String → Bool
same_text a b = a == b

abbrev defaults : List String
defaults = load_watchlist no_parse none
