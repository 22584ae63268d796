-- ===== src/Charts/Rising.antt =====
-- apps/web/src/operator/resultChartModel.ts: every series of a result rises in time.
use montlok_terminal.Prelude.{
  String, ◌≡◌, Bool, true, false, not, ◌&&◌, List, [], ◌∷◌, Option, none, some, if◌then◌else◌, ◌==◌,
  string_eq, all, All, All-append,
}
use montlok_terminal.Prelude.Numbers.{Numbers}
use montlok_terminal.Json.{Json}
use montlok_terminal.Charts.Points.{TimePoint}
use montlok_terminal.Charts.Ordered.{Rises, AreFinite, ordered_points-Rises}
use montlok_terminal.Charts.Results.{
  Candle, Depth, ResultChart, candles, depth, series, is_price_only, is_interest_history, data_of,
  rows_of, is_four, all_candles, depth_chart,
}
use montlok_terminal.Charts.Metrics.{
  Metric, metrics, is_empty, Series, add_rows, series_charts, metric_charts, interest_points,
  interest_chart, series_of_rows, candles_or_series, charts_of_rows, result_charts,
}

abbrev pub IsRising : {N : Type 0} → ⦃n : Numbers N⦄ → ResultChart N → Type 0
IsRising (series label points) = Rises points × AreFinite points
IsRising (candles label cs show_volume) = Unit
IsRising (depth book) = Unit

module _ (N : Type 0) ⦃n : Numbers N⦄ (same_eq : (a b : N) → n.same a b ≡ true → a ≡ b)
    (differ : (a b : N)
      → n.is_finite a ≡ true
      → n.is_finite b ≡ true
      → n.same a b ≡ false
      → n.lt a b ≡ false
      → n.lt b a ≡ true) where
  abbrev AreRising : List (ResultChart N) → Type 0
  AreRising charts = All (λ c. IsRising c) charts

  if-AreRising :
      (b : Bool) (xs ys : List (ResultChart N))
      → AreRising xs
      → AreRising ys
      → AreRising (if b then xs else ys)
  if-AreRising true xs ys h k = h
  if-AreRising false xs ys h k = k

  series_charts-AreRising :
      (metric : Metric) (all : Series N) → AreRising (series_charts N metric all)
  unfolding series_charts
  series_charts-AreRising metric [] = tt
  series_charts-AreRising metric ((instrument, points) ∷ rest) =
      (ordered_points-Rises same_eq differ points, series_charts-AreRising metric rest)

  metric_charts-AreRising :
      (ms : List Metric) (rows : List Json) → AreRising (metric_charts N ms rows)
  unfolding metric_charts
  metric_charts-AreRising [] rows = tt
  metric_charts-AreRising (metric ∷ rest) rows =
      All-append _ (series_charts N metric (add_rows N [] metric rows)) _
        (series_charts-AreRising metric (add_rows N [] metric rows))
        (if-AreRising (metric.key == "oiUsd" && not (is_empty (add_rows N [] metric rows))) []
          (metric_charts N rest rows) tt (metric_charts-AreRising rest rows))

  interest_chart-AreRising : (points : List (TimePoint N)) → AreRising (interest_chart N points)
  interest_chart-AreRising [] = tt
  interest_chart-AreRising (p ∷ ps) = (ordered_points-Rises same_eq differ (p ∷ ps), tt)

  series_of_rows-AreRising :
      (rows : List Json) (operation : String) → AreRising (series_of_rows N rows operation)
  unfolding series_of_rows
  series_of_rows-AreRising rows operation =
      if-AreRising (is_interest_history operation && all is_four rows)
        (interest_chart N (interest_points N rows)) (metric_charts N metrics rows)
        (interest_chart-AreRising (interest_points N rows)) (metric_charts-AreRising metrics rows)

  candles_or_series-AreRising :
      (cs : Option (List (Candle N))) (rows : List Json) (operation : String)
      → AreRising (candles_or_series N cs rows operation)
  unfolding candles_or_series
  candles_or_series-AreRising none rows operation = series_of_rows-AreRising rows operation
  candles_or_series-AreRising (some cs) rows operation = (tt, tt)

  charts_of_rows-AreRising :
      (book : Option Depth) (rows : List Json) (operation : String)
      → AreRising (charts_of_rows N book rows operation)
  unfolding charts_of_rows
  charts_of_rows-AreRising none rows operation =
      candles_or_series-AreRising (all_candles (is_price_only operation) rows) rows operation
  charts_of_rows-AreRising (some book) rows operation = (tt, tt)

  -- Whatever the result of an operation holds: each series that is drawn of it has finite points, each
  -- later than the one in front of it. Where numbers that compare equal are equal, and of two finite
  -- numbers that differ one is less.
  pub result_charts-AreRising :
      (value : Json) (operation : String) → All (λ c. IsRising c) (result_charts N value operation)
  unfolding result_charts
  result_charts-AreRising value operation =
      let rows = rows_of (data_of value) in
      if-AreRising (is_empty rows) [] (charts_of_rows N (depth_chart N rows) rows operation) tt
        (charts_of_rows-AreRising (depth_chart N rows) rows operation)
