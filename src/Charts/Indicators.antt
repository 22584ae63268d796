-- ===== src/Charts/Indicators.antt =====
-- apps/web/src/operator/indicators.ts: the moving average of a series of candles, and the depth of a book.
use montlok_terminal.Prelude.{
  ℕ, ◌-◌, ◌+◌, List, [], ◌∷◌, Option, none, some, if◌then◌else◌, leb, length, drop,
}
use montlok_terminal.Prelude.Numbers.{Numbers}
use montlok_terminal.Charts.Points.{TimePoint}

-- A candle, of which the time and the close are read; the close is `Number(candle.close)`.
pub record Bar (N : Type 0) : Type 0 where
  pub time : N
  pub close : N

module _ {N : Type 0} ⦃n : Numbers N⦄ where
  -- `candles[index - period]`, as the rest of the list that begins there
  abbrev pub subtract_first : N → List (Bar N) → N
  subtract_first sum [] = sum
  subtract_first sum (b ∷ behind) = n.sub sum b.close

  abbrev pub rest_of : List (Bar N) → List (Bar N)
  rest_of [] = []
  rest_of (b ∷ behind) = behind

  -- `sum` and `candles[index - period]` after one candle
  unfoldable pub next_sum : ℕ → ℕ → N → Bar N → List (Bar N) → N
  next_sum period index sum b behind =
      if leb period index then subtract_first (n.add sum b.close) behind else n.add sum b.close

  unfoldable pub next_behind : ℕ → ℕ → List (Bar N) → List (Bar N)
  next_behind period index behind = if leb period index then rest_of behind else behind

  -- The loop from `index` on: `ahead` are the candles that are left, `behind` those from
  -- `index - period` on, all of them as long as the index is below the period.
  unfoldable pub average_from : ℕ → ℕ → N → List (Bar N) → List (Bar N) → List (TimePoint N)
  average_from period index sum [] behind = []
  average_from period index sum (b ∷ ahead) behind =
      let sum' = next_sum period index sum b behind in
      let rest = average_from period (index + 1) sum' ahead (next_behind period index behind) in
      if leb period (index + 1)
      then record { time = b.time; value = n.div sum' (n.of_nat period) } ∷ rest
      else rest

  unfoldable pub moving_average : List (Bar N) → ℕ → List (TimePoint N)
  moving_average candles period = average_from period 0 (n.of_nat 0) candles candles

  abbrev pub add_closes : N → List (Bar N) → N
  add_closes sum [] = sum
  add_closes sum (b ∷ bars) = add_closes (n.add sum b.close) bars

  abbrev pub last_time : List (Bar N) → Option N
  last_time [] = none
  last_time (b ∷ []) = some b.time
  last_time (b ∷ c ∷ bars) = last_time (c ∷ bars)

  -- `lastMovingAverage`; of no candle with a period of 0 it throws, which is `none` here
  unfoldable pub last_moving_average : List (Bar N) → ℕ → Option (TimePoint N)
  last_moving_average candles period =
      if leb period (length candles)
      then elim (last_time candles) [
        | none ↦ none
        | some time ↦ some (record {
          time = time;
          value =
              n.div (add_closes (n.of_nat 0) (drop (length candles - period) candles))
                (n.of_nat period);
        })
      ]
      else none

  -- `cumulate`, of the prices and sizes of the levels
  unfoldable pub cumulate : N → List (N × N) → List (N × N)
  cumulate sum [] = []
  cumulate sum ((price, size) ∷ levels) = (price, n.add sum size) ∷ cumulate (n.add sum size) levels
