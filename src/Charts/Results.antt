-- ===== src/Charts/Results.antt =====
-- apps/web/src/operator/resultChartModel.ts: which charts the result of an operation is shown in.
-- `data` is what `dataOf` gives of the result; a text that a label begins with is an instrument.
use Prim.Native.String.{String, [] as empty, ◌∷◌ as ◌∷s◌, ◌++◌ as ◌+s◌}
use montlok_terminal.Prelude.{
  ℕ, Bool, false, not, ◌&&◌, ◌||◌, List, [], ◌∷◌, Option, none, some, if◌then◌else◌, ◌==◌,
  string_eq, nat_eq, length, get_elem?, get_or, all, any, includes, leb,
}
use montlok_terminal.Prelude.Numbers.{Numbers, at_least}
use montlok_terminal.Prelude.Sorting.{sort_by}
use montlok_terminal.Json.{Json, items, array_items, entries}
use montlok_terminal.Console.Upload.{is_truthy, property_of}
use montlok_terminal.Market.Rows.{property?, starts_with}
use montlok_terminal.Watchlist.Symbols.{trim_start, trim_end}
use montlok_terminal.Analytics.Fields.{text_of, text_or}
use montlok_terminal.Charts.Points.{TimePoint, finite, chart_time}

pub record Candle (N : Type 0) : Type 0 where
  pub time : N
  pub open_price : N
  pub high : N
  pub low : N
  pub close : N
  -- missing where the prices have no volume
  pub volume : Option N

pub record Depth : Type 0 where
  pub label : String
  -- the fields of the book, its bids and its asks
  pub fields : List (String × Json)
  pub bids : List Json
  pub asks : List Json

pub data ResultChart (N : Type 0) : Type 0 where
  candles : String → List (Candle N) → Bool → ResultChart N
  depth : Depth → ResultChart N
  series : String → List (TimePoint N) → ResultChart N

-- `a ?? b` of two properties
abbrev pub present_or : Option Json → Option Json → Option Json
present_or none b = b
present_or (some Json.null) b = b
present_or (some a) b = some a

-- the six values of a row that is an object
abbrev row_values : Json → List (Option Json)
row_values row =
    present_or (property? row "time") (property? row "ts")
    ∷ property? row "open"
    ∷ property? row "high"
    ∷ property? row "low"
    ∷ property? row "close"
    ∷ property? row "volume"
    ∷ []

abbrev given : List Json → List (Option Json)
given [] = []
given (j ∷ js) = some j ∷ given js

abbrev value_at : List (Option Json) → ℕ → Option Json
value_at values i = get_or (get_elem? values i) none

-- whether an array can be a candle: with a volume, or six values that end in `confirm`
abbrev is_confirm : Option Json → Bool
is_confirm none = false
is_confirm (some j) = includes ("0" ∷ "1" ∷ []) (text_of j)

unfoldable pub has_candle_shape : List Json → Bool → Bool
has_candle_shape row price_only =
    if price_only
    then length row == 6 && is_confirm (get_elem? row 5)
    else leb 7 (length row) && leb (length row) 9

abbrev pub contains : String → String → Bool
contains empty p = p == ""
contains (c ∷s s) p = let rest = contains s p in starts_with (c ∷s s) p || rest

-- `/(?:index|mark[-_]price)[-_]candles/`
unfoldable pub is_price_only : String → Bool
is_price_only operation = any (contains operation) (
    "index-candles" ∷ "index_candles" ∷ "mark-price-candles" ∷ "mark-price_candles"
    ∷ "mark_price-candles" ∷ "mark_price_candles" ∷ [])

unfoldable pub is_interest_history : String → Bool
is_interest_history operation =
    any (contains operation) ("contracts/open-interest-history" ∷ "market_get_oi_history" ∷ [])

abbrev pub trimmed : String → String
trimmed s = trim_end (trim_start s)

-- the rows of the data
abbrev pub data_of : Json → Json
data_of j = if is_truthy (property_of j "candles") then property_of j "candles" else j

abbrev pub rows_of : Json → List Json
rows_of (Json.array js) = items js
rows_of (Json.object fields) = Json.object fields ∷ []
rows_of _ = []

abbrev pub fields_of : Json → List (String × Json)
fields_of (Json.object fields) = entries fields
fields_of _ = []

abbrev array_of : Option Json → Option (List Json)
array_of none = none
array_of (some j) = array_items j

abbrev pub is_four : Json → Bool
is_four j = elim (array_items j) [ none ↦ false | some js ↦ length js == 4 ]

module _ {N : Type 0} ⦃n : Numbers N⦄ where
  abbrev exceeds : N → N → Bool
  exceeds a b = n.lt b a

  abbrev make_candle :
      Bool → Option N → Option N → Option N → Option N → Option N → Option N → Option (Candle N)
  make_candle price_only (some time) (some open_price) (some high) (some low) (some close) volume =
      if exceeds low (n.of_nat 0)
        && not (n.lt high open_price)
        && not (n.lt high close)
        && not (exceeds low open_price)
        && not (exceeds low close)
      then if price_only
        then some (record {
          time = time;
          open_price = open_price;
          high = high;
          low = low;
          close = close;
          volume = none;
        })
        else elim volume [
          | none ↦ none
          | some v ↦
              if n.lt v (n.of_nat 0)
              then none
              else some (record {
                time = time;
                open_price = open_price;
                high = high;
                low = low;
                close = close;
                volume = some v;
              })
        ]
      else none
  make_candle price_only _ _ _ _ _ volume = none

  abbrev candle_of_values : Bool → List (Option Json) → Option (Candle N)
  candle_of_values price_only values =
      make_candle price_only (chart_time (value_at values 0)) (finite (value_at values 1))
        (finite (value_at values 2)) (finite (value_at values 3)) (finite (value_at values 4))
        (finite (value_at values 5))

  unfoldable pub candle_of : Bool → Json → Option (Candle N)
  candle_of price_only (Json.array js) =
      if has_candle_shape (items js) price_only
      then candle_of_values price_only (given (items js))
      else none
  candle_of price_only (Json.object fields) =
      candle_of_values price_only (row_values (Json.object fields))
  candle_of price_only _ = none

  abbrev pub all_candles : Bool → List Json → Option (List (Candle N))
  all_candles price_only [] = some []
  all_candles price_only (row ∷ rows) = elim (candle_of price_only row) [
    | none ↦ none
    | some c ↦ elim (all_candles price_only rows) [ none ↦ none | some cs ↦ some (c ∷ cs) ]
  ]

  unfoldable pub put_candle : List (Candle N) → Candle N → List (Candle N)
  put_candle [] c = c ∷ []
  put_candle (d ∷ ds) c = if n.same d.time c.time then c ∷ ds else d ∷ put_candle ds c

  unfoldable pub put_candles : List (Candle N) → List (Candle N) → List (Candle N)
  put_candles into [] = into
  put_candles into (c ∷ cs) = put_candles (put_candle into c) cs

module _ (N : Type 0) ⦃n : Numbers N⦄ where
  abbrev is_level : Json → Bool
  is_level j = elim (array_items j) [
    | none ↦ false
    | some row ↦
        leb 2 (length row)
        && elim (finite {N = N} (get_elem? row 0)) [ none ↦ false | some x ↦ n.lt (n.of_nat 0) x ]
        && elim (finite {N = N} (get_elem? row 1)) [
          | none ↦ false
          | some x ↦ at_least x (n.of_nat 0)
        ]
  ]

  unfoldable pub valid_levels : Option Json → Option (List Json)
  valid_levels j = elim (array_of j) [
    | none ↦ none
    | some rows ↦ if all is_level rows then some rows else none
  ]

  abbrev price_of : Json → N
  price_of j = n.number (elim (array_items j) [ none ↦ none | some row ↦ get_elem? row 0 ])

  -- the depth of a book, where the data is one
  unfoldable pub depth_chart : List Json → Option Depth
  depth_chart (first ∷ []) = elim (valid_levels (property? first "bids")) [
    | none ↦ none
    | some bids ↦ elim (valid_levels (property? first "asks")) [
      | none ↦ none
      | some asks ↦
          if length bids == 0 && length asks == 0
          then none
          else some (record {
            label = trimmed (text_or (property? first "instId") "" +s " 累计深度");
            fields = fields_of first;
            bids = sort_by (λ a b. n.lt (price_of b) (price_of a)) bids;
            asks = sort_by (λ a b. n.lt (price_of a) (price_of b)) asks;
          })
    ]
  ]
  depth_chart _ = none
