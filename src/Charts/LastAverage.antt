-- ===== src/Charts/LastAverage.antt =====
-- apps/web/src/operator/indicators.ts: the latest average is the last of all averages.
use montlok_terminal.Prelude.{
  ◌+◌, ℕ, ◌≤◌, ◌≡◌, refl, ap, ◌∙◌, true, false, List, [], ◌∷◌, ◌++◌, Option, none, some, arith, leb,
  length, length-append, append_assoc, inl, inr, Bool-cases, is_some,
}
use montlok_terminal.Prelude.Numbers.{Numbers}
use montlok_terminal.Charts.Points.{TimePoint}
use montlok_terminal.Charts.Indicators.{Bar, moving_average, last_time, last_moving_average}
use montlok_terminal.Charts.Averages.{
  exact_limit, IsExact, window_sum, last, averages, moving_average-averages,
}

abbrev pub last_point : {N : Type 0} → List (TimePoint N) → Option (TimePoint N)
last_point [] = none
last_point (p ∷ []) = some p
last_point (p ∷ q ∷ ps) = last_point (q ∷ ps)

module _ {N : Type 0} ⦃n : Numbers N⦄ where
  last_point-cons :
      (p : TimePoint N) (ps : List (TimePoint N))
      → is_some (last_point ps) ≡ true
      → last_point (p ∷ ps) ≡ last_point ps
  last_point-cons p [] h = absurd (ground (arith, h))
  last_point-cons p (q ∷ ps) h = refl

  last_time-append : (bars : List (Bar N)) (b : Bar N) → last_time (bars ++ b ∷ []) ≡ some b.time
  last_time-append [] b = refl
  last_time-append (c ∷ []) b = refl
  last_time-append (c ∷ d ∷ bars) b = last_time-append (d ∷ bars) b

  abbrev average_at : ℕ → List (Bar N) → N → TimePoint N
  average_at period bars time = record {
    time = time;
    value = n.div (window_sum (last period bars)) (n.of_nat period);
  }

  last_moving_average-full :
      (bars : List (Bar N)) (b : Bar N) (period : ℕ)
      → leb period (length (bars ++ b ∷ [])) ≡ true
      → last_moving_average (bars ++ b ∷ []) period
        ≡ some (average_at period (bars ++ b ∷ []) b.time)
  unfolding last_moving_average
  last_moving_average-full bars b period h = rw (h, last_time-append bars b) refl

  last_moving_average-short :
      (bars : List (Bar N)) (period : ℕ)
      → leb period (length bars) ≡ false
      → last_moving_average bars period ≡ none
  unfolding last_moving_average
  last_moving_average-short bars period h = rw h refl

  full_after :
      (period : ℕ) (before : List (Bar N)) (b : Bar N)
      → leb period (length before) ≡ true
      → leb period (length (before ++ b ∷ [])) ≡ true
  full_after period before b h = ground (arith, h, length-append before (b ∷ []))

  averages-full :
      (period : ℕ) (before : List (Bar N)) (b : Bar N) (ahead : List (Bar N))
      → leb period (length before) ≡ true
      → is_some (last_point (averages period before (b ∷ ahead))) ≡ true
  averages-full period before b [] h = rw (full_after period before b h) refl
  averages-full period before b (c ∷ ahead) h =
      let f = full_after period before b h in
      let more = averages-full period (before ++ b ∷ []) c ahead f in
      rw f (
        ap is_some (last_point-cons _ (averages period (before ++ b ∷ []) (c ∷ ahead)) more) ∙ more)

  averages-last :
      (period : ℕ) (before : List (Bar N)) (b : Bar N) (ahead : List (Bar N))
      → last_point (averages period before (b ∷ ahead))
        ≡ last_moving_average (before ++ b ∷ ahead) period
  averages-last period before b [] = elim (Bool-cases (leb period (length (before ++ b ∷ [])))) [
    | inl q ↦ rw (q, last_moving_average-full before b period q) refl
    | inr q ↦ rw (q, last_moving_average-short (before ++ b ∷ []) period q) refl
  ]
  averages-last period before b (c ∷ ahead) =
      let seen = before ++ b ∷ [] in
      let rest : last_point (averages period seen (c ∷ ahead))
          ≡ last_moving_average (before ++ b ∷ c ∷ ahead) period =
        averages-last period seen c ahead
        ∙ ap (λ bars. last_moving_average bars period) (append_assoc before (b ∷ []) (c ∷ ahead)) in
      elim (Bool-cases (leb period (length seen))) [
        | inl q ↦ rw q (
            last_point-cons _ (averages period seen (c ∷ ahead))
              (averages-full period seen c ahead q)
            ∙ rest)
        | inr q ↦ rw q rest
      ]

  averages-last_all :
      (period : ℕ) (candles : List (Bar N))
      → last_point (averages period [] candles) ≡ last_moving_average candles period
  unfolding last_moving_average
  averages-last_all period [] = ground arith
  averages-last_all period (b ∷ ahead) = averages-last period [] b ahead

module _ {N : Type 0} ⦃n : Numbers N⦄
    (add_exact : (a b : ℕ)
      → a + b ≤ exact_limit
      → n.add (n.of_nat a) (n.of_nat b) ≡ n.of_nat (a + b))
    (sub_exact : (a b : ℕ)
      → a + b ≤ exact_limit
      → n.sub (n.of_nat (a + b)) (n.of_nat a) ≡ n.of_nat b)
    (close_of : Bar N → ℕ) where
  -- The latest average, which reads only its window, is the last point of the moving average, and there
  -- is none where that has no point; for closes that are whole numbers and sum up to no more than 2^53,
  -- where floating point adds and subtracts exactly.
  pub moving_average-last :
      (candles : List (Bar N)) (period : ℕ)
      → 1 ≤ period
      → IsExact close_of candles
      → last_point (moving_average candles period) ≡ last_moving_average candles period
  moving_average-last candles period p e =
      ap last_point (moving_average-averages add_exact sub_exact close_of candles period p e)
      ∙ averages-last_all period candles
