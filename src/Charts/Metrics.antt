-- ===== src/Charts/Metrics.antt =====
-- apps/web/src/operator/resultChartModel.ts: the series of a result, and all its charts.
use Prim.Native.String.{String, ◌++◌ as ◌+s◌}
use montlok_terminal.Prelude.{
  ℕ, Bool, true, false, not, ◌&&◌, List, [], ◌∷◌, ◌++◌, Option, none, some, if◌then◌else◌, ◌==◌,
  string_eq, get_elem?, get_or, all,
}
use montlok_terminal.Prelude.Numbers.{Numbers}
use montlok_terminal.Prelude.Sorting.{sort_by}
use montlok_terminal.JsMap.{get, set}
use montlok_terminal.Json.{Json, array_items}
use montlok_terminal.Market.Rows.{property?}
use montlok_terminal.Analytics.Fields.{text_or}
use montlok_terminal.Charts.Points.{TimePoint, finite, chart_time, ordered_points}
use montlok_terminal.Charts.Results.{
  Candle, Depth, ResultChart, candles, depth, series, present_or, contains, is_price_only,
  is_interest_history, trimmed, data_of, rows_of, is_four, all_candles, put_candles, depth_chart,
}

pub record Metric : Type 0 where
  pub key : String
  pub label : String
  pub time : String
  pub scale : ℕ

abbrev pub metrics : List Metric
metrics =
    record { key = "realizedRate"; label = "已结算资金费率 / %"; time = "fundingTime"; scale = 100 }
    ∷ record { key = "fundingRate"; label = "资金费率 / %"; time = "fundingTime"; scale = 100 }
    ∷ record { key = "oiUsd"; label = "持仓量 / USD"; time = "ts"; scale = 1 }
    ∷ record { key = "oi"; label = "持仓量 / 张"; time = "ts"; scale = 1 }
    ∷ []

abbrev pub is_empty : {A : Type 0} → List A → Bool
is_empty [] = true
is_empty (x ∷ xs) = false

-- `String(row.instId || row.instFamily || '')`
abbrev instrument_of : Json → String
instrument_of row = text_or (property? row "instId") (text_or (property? row "instFamily") "")

module _ (N : Type 0) ⦃n : Numbers N⦄ where
  abbrev pub Series : Type 0
  Series = List (String × List (TimePoint N))

  abbrev pair_point : Option N → Option N → List (TimePoint N)
  pair_point (some time) (some value) = record { time = time; value = value } ∷ []
  pair_point _ _ = []

  -- the open interest, by position: the time first, the value in USD fourth
  unfoldable pub interest_points : List Json → List (TimePoint N)
  interest_points [] = []
  interest_points (row ∷ rows) =
      let values = get_or (array_items row) [] in
      pair_point (chart_time (get_elem? values 0)) (finite (get_elem? values 3))
      ++ interest_points rows

  abbrev add_point : Series → Metric → Json → Option N → Option N → Series
  add_point all metric row (some time) (some value) = set all (instrument_of row) (
      get_or (get all (instrument_of row)) []
      ++ record { time = time; value = n.mul value (n.of_nat metric.scale) } ∷ [])
  add_point all metric row _ _ = all

  -- one row of the loop; a row that is no object is passed over
  unfoldable pub add_row : Series → Metric → Json → Series
  add_row all metric (Json.object fields) =
      let row = Json.object fields in
      add_point all metric row
        (chart_time (present_or (property? row metric.time) (property? row "ts")))
        (finite (property? row metric.key))
  add_row all metric _ = all

  unfoldable pub add_rows : Series → Metric → List Json → Series
  add_rows all metric [] = all
  add_rows all metric (row ∷ rows) = add_rows (add_row all metric row) metric rows

  unfoldable pub series_charts : Metric → Series → List (ResultChart N)
  series_charts metric [] = []
  series_charts metric ((instrument, points) ∷ rest) =
      series (trimmed (instrument +s " " +s metric.label)) (ordered_points points)
      ∷ series_charts metric rest

  -- the loop over the metrics, with its `break`
  unfoldable pub metric_charts : List Metric → List Json → List (ResultChart N)
  metric_charts [] rows = []
  metric_charts (metric ∷ rest) rows =
      let all = add_rows [] metric rows in
      let more = metric_charts rest rows in
      series_charts metric all ++ (if metric.key == "oiUsd" && not (is_empty all) then [] else more)

  abbrev pub interest_chart : List (TimePoint N) → List (ResultChart N)
  interest_chart [] = []
  interest_chart (p ∷ ps) = series "持仓量 / USD" (ordered_points (p ∷ ps)) ∷ []

  unfoldable pub series_of_rows : List Json → String → List (ResultChart N)
  series_of_rows rows operation =
      if is_interest_history operation && all is_four rows
      then interest_chart (interest_points rows)
      else metric_charts metrics rows

  abbrev candle_label : String → String
  candle_label operation =
      if is_price_only operation
      then if contains operation "index" then "指数价格 K 线" else "标记价格 K 线"
      else "K 线与成交量"

  unfoldable pub candles_or_series :
      Option (List (Candle N)) → List Json → String → List (ResultChart N)
  candles_or_series none rows operation = series_of_rows rows operation
  candles_or_series (some cs) rows operation =
      candles (candle_label operation)
        (sort_by (λ (a b : Candle N). n.lt a.time b.time) (put_candles [] cs))
        (not (is_price_only operation))
      ∷ []

  unfoldable pub charts_of_rows : Option Depth → List Json → String → List (ResultChart N)
  charts_of_rows (some book) rows operation = depth book ∷ []
  charts_of_rows none rows operation =
      candles_or_series (all_candles (is_price_only operation) rows) rows operation

  -- `data` is `dataOf(value)`
  unfoldable pub result_charts : Json → String → List (ResultChart N)
  result_charts value operation =
      let rows = rows_of (data_of value) in
      if is_empty rows then [] else charts_of_rows (depth_chart N rows) rows operation
