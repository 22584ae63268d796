-- ===== src/Workspace/Destination.antt =====
-- apps/web/src/operator/navigation.ts: `destination`, the page of an API entry.
-- Each regular expression of the source is a choice of fixed texts, searched anywhere or, under `^`,
-- at the beginning.
use Prim.Native.Char.{code}
use Prim.Native.String.{String, [] as empty, ◌∷◌ as ◌∷s◌, ◌++◌ as ◌+s◌}
use text.Mathlib.Text.{starts_with, find? as position_of}
use montlok_terminal.Prelude.{
  ℕ, Bool, ◌||◌, List, [], ◌∷◌, Option, none, some, if◌then◌else◌, ◌==◌, string_eq, nat_eq, is_some,
  any,
}

-- `/a|b|c/.test(text)`
abbrev pub finds : String → List String → Bool
finds text ts = any (λ t. is_some (position_of text t)) ts

abbrev is_space : ℕ → Bool
is_space c = c == 32

-- `name.split(' ')[1]`: what stands between the first two spaces, nothing where there is no space
unfoldable pub until_space : String → String
until_space empty = empty
until_space (c ∷s s) = if is_space (code c) then empty else c ∷s until_space s

unfoldable pub second_word : String → String
second_word empty = empty
second_word (c ∷s s) = if is_space (code c) then until_space s else second_word s

pub record Item : Type 0 where
  pub name : String
  pub kind : Option String
  pub path : Option String
  pub section : Option String

-- `item.path || name.split(' ')[1] || ''`
unfoldable pub item_path : Item → String
unfolding second_word until_space
item_path item = elim item.path [
  | none ↦ second_word item.name
  | some path ↦ if path == "" then second_word item.name else path
]

unfoldable pub market_destination : String → String
market_destination name =
    if finds name ("indicator" ∷ [])
    then "/market/data/indicators"
    else if finds name ("filter" ∷ "spread" ∷ [])
    then "/market/data/screen"
    else if finds name ("instrument" ∷ "stock_token" ∷ [])
    then "/market/prices/instruments"
    else if finds name ("orderbook" ∷ [])
    then "/market/prices/depth"
    else if finds name ("candle" ∷ [])
    then "/market/prices/candles"
    else if finds name ("funding" ∷ "mark_price" ∷ "price_limit" ∷ "interest" ∷ "oi_history" ∷ [])
    then "/market/data/derivatives"
    else "/market/prices/quotes"

unfoldable pub news_destination : String → String
news_destination name =
    if finds name ("calendar" ∷ [])
    then "/market/research/calendar"
    else if finds name ("sentiment" ∷ [])
    then "/market/research/sentiment"
    else "/market/research/news"

-- `name.match(/^(spot|swap|futures|option|event)_/)`
unfoldable pub product_of : String → Option String
product_of name =
    if starts_with name "spot_"
    then some "spot"
    else if starts_with name "swap_"
    then some "swap"
    else if starts_with name "futures_"
    then some "futures"
    else if starts_with name "option_"
    then some "option"
    else if starts_with name "event_"
    then some "event"
    else none

unfoldable pub product_page : String → String
product_page name =
    if finds name (
      "position" ∷ "leverage" ∷ "greeks" ∷ "instruments" ∷ "browse" ∷ "series" ∷ "events"
      ∷ "markets" ∷ [])
    then "positions"
    else if finds name ("algo" ∷ "move_stop" ∷ [])
    then "algo"
    else if finds name ("fills" ∷ [])
    then "fills"
    else "orders"

unfoldable pub finance_destination : String → String
finance_destination path =
    if finds path ("savings" ∷ [])
    then "/assets/earn/flexible"
    else if finds path ("dcd" ∷ [])
    then "/assets/earn/dual"
    else if finds path ("staking" ∷ "onchain" ∷ [])
    then "/assets/earn/onchain"
    else "/assets/earn/fixed"

unfoldable pub prices_destination : String → String
prices_destination path =
    if finds path ("books" ∷ [])
    then "/market/prices/depth"
    else if finds path ("candles" ∷ [])
    then "/market/prices/candles"
    else "/market/prices/quotes"

-- The tests from the funds of an account on, over the path and over name and path together.
unfoldable pub account_destination : String → String → String
account_destination path both =
    if finds both ("transfer" ∷ [])
    then "/assets/funds/transfer"
    else if finds path ("deposit" ∷ [])
    then "/assets/funds/deposit"
    else if finds both ("withdraw" ∷ [])
    then "/assets/funds/withdraw"
    else if finds both ("bills" ∷ [])
    then "/assets/funds/bills"
    else if finds both ("trade_fee" ∷ "trade-fee" ∷ [])
    then "/assets/funds/fees"
    else if finds both ("positions" ∷ "position-risk" ∷ [])
    then "/assets/account/positions"
    else if finds both ("asset_balance" ∷ "/asset/" ∷ [])
    then "/assets/account/funding"
    else if finds both ("balance" ∷ "max_size" ∷ "max_avail_size" ∷ [])
    then "/assets/account/trading"
    else if starts_with both "account_" || finds both ("/account/" ∷ [])
    then "/settings/accounts/preferences"
    else "/settings/developer/api"

-- The tests from the extensions on.
unfoldable pub service_destination : String → String → String → String
service_destination name path both =
    if starts_with name "skills_"
    then "/settings/system/skills"
    else if starts_with both "system_" || finds both ("/system/" ∷ "/support/" ∷ [])
    then "/settings/system/status"
    else if starts_with name "trade_get_history"
    then "/settings/system/requests"
    else if finds path ("/fiat/buy-sell/" ∷ [])
    then "/assets/funds/conversion"
    else if finds path ("/users/glp/" ∷ [])
    then "/market/data/statistics"
    else if finds path ("subaccount" ∷ "sub-account" ∷ "subAcct" ∷ [])
    then "/settings/accounts/subaccounts"
    else if finds path ("affiliate" ∷ [])
    then "/settings/system/affiliate"
    else if finds path ("copytrading" ∷ [])
    then "/strategies/copy/trading"
    else if finds path ("/rfq/" ∷ [])
    then "/trade/execution/block"
    else if finds path ("/sprd/" ∷ [])
    then "/trade/execution/spread"
    else if finds path ("/trade/" ∷ [])
    then "/trade/execution/orders"
    else if finds path ("/rubik/" ∷ [])
    then "/market/data/statistics"
    else if finds path ("/market/" ∷ [])
    then prices_destination path
    else if finds path ("/public/" ∷ [])
    then (if finds path ("instruments" ∷ [])
        then "/market/prices/instruments"
        else "/market/data/derivatives")
    else account_destination path both

-- The tests from the trading bots on.
unfoldable pub strategy_destination : String → String → String → String
strategy_destination name path both =
    if starts_with both "grid_" || finds both ("tradingBot/grid" ∷ [])
    then "/strategies/bots/grid"
    else if starts_with both "dca_" || finds both ("tradingBot/dca" ∷ [])
    then "/strategies/bots/dca"
    else if finds path ("tradingBot/recurring" ∷ [])
    then "/strategies/bots/recurring"
    else if finds path ("tradingBot/signal" ∷ [])
    then "/strategies/bots/signal"
    else if starts_with both "onchain_"
        || finds both ("finance/staking" ∷ "finance/eth-staking" ∷ "finance/sol-staking" ∷ [])
    then "/assets/earn/onchain"
    else if starts_with both "dcd_" || finds both ("finance/sfp/dcd" ∷ [])
    then "/assets/earn/dual"
    else if starts_with name "earn_"
    then (if finds name ("fixed" ∷ "flash" ∷ [])
        then "/assets/earn/fixed"
        else "/assets/earn/flexible")
    else if finds path ("flexible-loan" ∷ "borrow" ∷ "loan" ∷ "interest" ∷ [])
    then "/assets/earn/loan"
    else if finds path ("/finance/" ∷ [])
    then finance_destination path
    else service_destination name path both

unfoldable pub destination : Item → String
destination item =
    let name = item.name in
    let path = item_path item in
    if starts_with name "market_"
    then market_destination name
    else if starts_with name "news_"
    then news_destination name
    else if starts_with name "smartmoney_"
    then "/market/research/traders"
    else if name == "spot_set_leverage"
    then "/settings/accounts/preferences"
    else elim (product_of name) [
      | some product ↦ "/trade/" +s product +s "/" +s product_page name
      | none ↦ strategy_destination name path (name +s path)
    ]
