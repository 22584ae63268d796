-- ===== src/Charts/Examples.antt =====
-- apps/web/src/operator/resultChartModel.ts: series of concrete points.
use montlok_terminal.Prelude.{
  drop, ℕ, ◌≡◌, refl, ap, true, false, [], ◌∷◌, Option, none, some, arith, nat_eq,
}
use montlok_terminal.Prelude.Naturals.{naturals, exact}
use montlok_terminal.Prelude.{All, String}
use montlok_terminal.Json.{Json, object, field, string, end, array, cons, nil}
use montlok_terminal.Charts.Metrics.{result_charts}
use montlok_terminal.Charts.Rising.{IsRising, result_charts-AreRising}
use montlok_terminal.Prelude.{List}
use montlok_terminal.Charts.Indicators.{Bar, moving_average, last_moving_average}
use montlok_terminal.Charts.Averages.{IsExact, averages, moving_average-averages}
use montlok_terminal.Charts.AverageTimes.{times, bar_times, moving_average-times}
use montlok_terminal.Charts.LastAverage.{last_point, moving_average-last}
use montlok_terminal.Charts.Points.{TimePoint, appended_points, appended_from}
use montlok_terminal.Charts.Appended.{Updates, appended_points-Updates}

abbrev point : ℕ → ℕ → TimePoint (Option ℕ)
point time value = record { time = some time; value = some value }

same_eq : (a b : Option ℕ) → naturals.same a b ≡ true → a ≡ b
same_eq (some a) (some b) h = ap some ((nat_eq.beq_iff a b).0 h)
same_eq none b h = absurd (ground (arith, h))
same_eq (some a) none h = absurd (ground (arith, h))

differ :
    (a b : Option ℕ)
    → naturals.is_finite a ≡ true
    → naturals.is_finite b ≡ true
    → naturals.same a b ≡ false
    → naturals.lt a b ≡ false
    → naturals.lt b a ≡ true
differ (some a) (some b) f g s l = ground (arith, s, l)
differ none b f g s l = absurd (ground (arith, f))
differ (some a) none f g s l = absurd (ground (arith, g))

appended_points-Updates_example :
    Updates same_eq
      (point 1 2 ∷ point 3 1 ∷ [])
      (point 1 2 ∷ point 3 5 ∷ point 4 1 ∷ [])
      (point 3 5 ∷ point 4 1 ∷ [])
unfolding appended_points appended_from
appended_points-Updates_example =
    appended_points-Updates same_eq (point 1 2 ∷ point 3 1 ∷ [])
      (point 1 2 ∷ point 3 5 ∷ point 4 1 ∷ []) (point 3 5 ∷ point 4 1 ∷ []) refl

-- The funding rates of an instrument, the newest first.
abbrev rate : String → Json
rate time = object (
    field "instId" (string "BTC-USDT-SWAP")
      (field "fundingTime" (string time) (field "fundingRate" (string "1") end)))

abbrev rates : Json
rates = array (cons (rate "1700000002") (cons (rate "1700000001") nil))

result_charts-AreRising_example : All (λ c. IsRising c) (result_charts (Option ℕ) rates "funding")
result_charts-AreRising_example = result_charts-AreRising (Option ℕ) same_eq differ rates "funding"

abbrev bars : List (Bar ℕ)
bars =
    record { time = 1; close = 4 }
    ∷ record { time = 2; close = 6 }
    ∷ record { time = 3; close = 10 }
    ∷ []

abbrev close_of : Bar ℕ → ℕ
close_of b = b.close

bars-IsExact : IsExact ⦃n = exact⦄ close_of bars
bars-IsExact = ((refl, (refl, (refl, tt))), omega arith)

moving_average-averages_example : moving_average ⦃n = exact⦄ bars 2 ≡ averages ⦃n = exact⦄ 2 [] bars
moving_average-averages_example =
    moving_average-averages ⦃n = exact⦄ (λ a b h. refl) (λ a b h. omega arith) close_of bars 2
      (omega arith) bars-IsExact

moving_average-last_example :
    last_point (moving_average ⦃n = exact⦄ bars 2) ≡ last_moving_average ⦃n = exact⦄ bars 2
moving_average-last_example =
    moving_average-last ⦃n = exact⦄ (λ a b h. refl) (λ a b h. omega arith) close_of bars 2
      (omega arith) bars-IsExact

moving_average-times_example :
    times ⦃n = exact⦄ (moving_average ⦃n = exact⦄ bars 2) ≡ bar_times ⦃n = exact⦄ (drop 1 bars)
moving_average-times_example = moving_average-times ⦃n = exact⦄ bars 2
