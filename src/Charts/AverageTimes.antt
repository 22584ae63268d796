-- ===== src/Charts/AverageTimes.antt =====
-- apps/web/src/operator/indicators.ts: for which candles there is a point of the moving average.
use montlok_terminal.Prelude.{
  ℕ, suc, zero, ◌+◌, ◌-◌, ◌≡◌, refl, sym, ap, ◌∙◌, true, false, List, [], ◌∷◌, arith, leb, drop,
  map, inl, inr, Bool-cases,
}
use montlok_terminal.Prelude.Numbers.{Numbers}
use montlok_terminal.Charts.Points.{TimePoint}
use montlok_terminal.Charts.Indicators.{Bar, next_sum, next_behind, average_from, moving_average}

module _ {N : Type 0} ⦃n : Numbers N⦄ where
  abbrev pub times : List (TimePoint N) → List N
  times points = map (λ p. p.time) points

  abbrev pub bar_times : List (Bar N) → List N
  bar_times bars = map (λ b. b.time) bars

  drop_nil : (k : ℕ) → drop {A = Bar N} k [] ≡ []
  drop_nil zero = refl
  drop_nil (suc k) = refl

  drop-suc :
      (period index : ℕ) (b : Bar N) (ahead : List (Bar N))
      → leb period (index + 1) ≡ false
      → drop (period - 1 - index) (b ∷ ahead) ≡ drop (period - 1 - (index + 1)) ahead
  drop-suc period index b ahead h =
      let e : period - 1 - index ≡ suc (period - 1 - (index + 1)) = ground (arith, h) in
      ap (λ k. drop k (b ∷ ahead)) e

  drop-zero :
      (period index : ℕ) (bars : List (Bar N))
      → leb period (index + 1) ≡ true
      → drop (period - 1 - index) bars ≡ bars
  drop-zero period index bars h =
      let e : period - 1 - index ≡ 0 = ground (arith, h) in ap (λ k. drop k bars) e

  average_from-times :
      (period index : ℕ) (sum : N) (ahead behind : List (Bar N))
      → times (average_from period index sum ahead behind)
        ≡ bar_times (drop (period - 1 - index) ahead)
  unfolding average_from
  average_from-times period index sum [] behind =
      let e : drop (period - 1 - index) [] ≡ [] = drop_nil (period - 1 - index) in
      ap bar_times (sym e)
  average_from-times period index sum (b ∷ ahead) behind =
      let sum' = next_sum period index sum b behind in
      let rest =
        average_from-times period (index + 1) sum' ahead (next_behind period index behind) in
      elim (Bool-cases (leb period (index + 1))) [
        | inl q ↦
            let later : leb period (index + 1 + 1) ≡ true = ground (arith, q) in
            rw (q, drop-zero period index (b ∷ ahead) q)
              (ap (λ ts. b.time ∷ ts)
                (rest ∙ ap bar_times (drop-zero period (index + 1) ahead later)))
        | inr q ↦ rw (q, drop-suc period index b ahead q) rest
      ]

  -- In any arithmetic, rounding included: the moving average has one point for each candle from the one
  -- at `period - 1` on, in their order and with their times.
  pub moving_average-times :
      (candles : List (Bar N)) (period : ℕ)
      → times (moving_average candles period) ≡ bar_times (drop (period - 1) candles)
  unfolding moving_average
  moving_average-times candles period =
      average_from-times period 0 (n.of_nat 0) candles candles
      ∙ ap (λ k. bar_times (drop k candles)) (omega arith)
