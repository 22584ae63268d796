-- ===== src/Charts/Averages.antt =====
-- apps/web/src/operator/indicators.ts: the running sum is the sum of the window.
use mathlib.Core.Path.{subst}
use montlok_terminal.Prelude.{
  All, ℕ, suc, zero, ◌-◌, ◌+◌, ◌≤◌, ◌≡◌, refl, sym, ap, ◌∙◌, true, false, List, [], ◌∷◌, ◌++◌,
  arith, if◌then◌else◌, leb, length, length-append, append_assoc, drop, inl, inr, Bool-cases,
}
use montlok_terminal.Prelude.Sorting.{sum_of}
use montlok_terminal.Prelude.Numbers.{Numbers}
use montlok_terminal.Charts.Points.{TimePoint}
use montlok_terminal.Charts.Indicators.{
  Bar, next_sum, next_behind, average_from, moving_average, add_closes,
}

module _ {A : Type 0} where
  drop-append_le : (k : ℕ) (xs ys : List A) → k ≤ length xs → drop k (xs ++ ys) ≡ drop k xs ++ ys
  drop-append_le zero xs ys h = refl
  drop-append_le (suc k) [] ys h = absurd (omega (arith, h))
  drop-append_le (suc k) (x ∷ xs) ys h = drop-append_le k xs ys (omega (arith, h))

  drop_nil : (k : ℕ) → drop {A = A} k [] ≡ []
  drop_nil zero = refl
  drop_nil (suc k) = refl

  -- A list from a position within it on, and from the next one on.
  drop-tail :
      (k : ℕ) (xs : List A) → suc k ≤ length xs → (x : A) × (drop k xs ≡ x ∷ drop (suc k) xs)
  drop-tail k [] h = absurd (omega (arith, h))
  drop-tail zero (x ∷ xs) h = (x, refl)
  drop-tail (suc k) (x ∷ xs) h = drop-tail k xs (omega (arith, h))

module _ {N : Type 0} ⦃n : Numbers N⦄ where
  abbrev pub window_sum : List (Bar N) → N
  window_sum window = add_closes (n.of_nat 0) window

  -- The last candles of a list, as many as the period has.
  abbrev pub last : ℕ → List (Bar N) → List (Bar N)
  last period bars = drop (length bars - period) bars

  -- The averages as they are meant: at each candle that has so many before it, of the last ones.
  abbrev pub averages : ℕ → List (Bar N) → List (Bar N) → List (TimePoint N)
  averages period before [] = []
  averages period before (b ∷ ahead) =
      let seen = before ++ b ∷ [] in
      let rest = averages period seen ahead in
      if leb period (length seen)
      then record { time = b.time; value = n.div (window_sum (last period seen)) (n.of_nat period) }
        ∷ rest
      else rest

  add_closes-append :
      (sum : N) (bars : List (Bar N)) (b : Bar N)
      → add_closes sum (bars ++ b ∷ []) ≡ n.add (add_closes sum bars) b.close
  add_closes-append sum [] b = refl
  add_closes-append sum (c ∷ bars) b = add_closes-append (n.add sum c.close) bars b

  -- The last candles after one more, before the period is full and after.
  grows :
      (period : ℕ) (before : List (Bar N)) (b : Bar N)
      → leb period (length before) ≡ false
      → last period (before ++ b ∷ []) ≡ last period before ++ b ∷ []
  grows period before b h =
      ap (λ k. drop k (before ++ b ∷ [])) (ground (arith, h, length-append before (b ∷ [])))
      ∙ drop-append_le (length before - period) before (b ∷ []) (omega arith)

  slides :
      (period : ℕ) (before : List (Bar N)) (b : Bar N)
      → 1 ≤ period
      → leb period (length before) ≡ true
      → (h : Bar N) × (window : List (Bar N)) × (last period before ≡ h ∷ window)
        × (last period (before ++ b ∷ []) ≡ window ++ b ∷ [])
  slides period before b p h =
      let k = length before - period in
      let within : suc k ≤ length before = ground (arith, h, p) in
      let t = drop-tail k before within in
      let e : length (before ++ b ∷ []) - period ≡ suc k =
        ground (arith, h, p, length-append before (b ∷ [])) in
      (
        t.0,
        drop (suc k) before,
        t.1,
        ap (λ j. drop j (before ++ b ∷ [])) e ∙ drop-append_le (suc k) before (b ∷ []) within,
      )

-- Whole numbers up to here, with their sums and differences, are exact in floating point: 2^53.
abbrev pub exact_limit : ℕ
exact_limit = 9007199254740992

module _ {N : Type 0} ⦃n : Numbers N⦄ (close_of : Bar N → ℕ) where
  -- Candles whose closes are whole numbers, which sum up to no more than the limit.
  abbrev pub IsExact : List (Bar N) → Type 0
  IsExact bars =
      All (λ b. b.close ≡ n.of_nat (close_of b)) bars × (sum_of close_of bars ≤ exact_limit)

  IsExact-drop : (k : ℕ) (bars : List (Bar N)) → IsExact bars → IsExact (drop k bars)
  IsExact-drop zero bars e = e
  IsExact-drop (suc k) [] e = e
  IsExact-drop (suc k) (b ∷ bars) e = IsExact-drop k bars (e.0.1, omega (arith, e.1))

  sum_of-prefix : (xs ys : List (Bar N)) → sum_of close_of xs ≤ sum_of close_of (xs ++ ys)
  sum_of-prefix [] ys = omega arith
  sum_of-prefix (x ∷ xs) ys = omega (arith, sum_of-prefix xs ys)

  All-prefix :
      (xs ys : List (Bar N))
      → All (λ b. b.close ≡ n.of_nat (close_of b)) (xs ++ ys)
      → All (λ b. b.close ≡ n.of_nat (close_of b)) xs
  All-prefix [] ys a = tt
  All-prefix (x ∷ xs) ys a = (a.0, All-prefix xs ys a.1)

  IsExact-prefix : (xs ys : List (Bar N)) → IsExact (xs ++ ys) → IsExact xs
  IsExact-prefix xs ys e = (All-prefix xs ys e.0, omega (arith, e.1, sum_of-prefix xs ys))

module _ {N : Type 0} ⦃n : Numbers N⦄
    (add_exact : (a b : ℕ)
      → a + b ≤ exact_limit
      → n.add (n.of_nat a) (n.of_nat b) ≡ n.of_nat (a + b))
    (sub_exact : (a b : ℕ)
      → a + b ≤ exact_limit
      → n.sub (n.of_nat (a + b)) (n.of_nat a) ≡ n.of_nat b)
    (close_of : Bar N → ℕ) where
  add_closes-exact :
      (sum : ℕ) (bars : List (Bar N))
      → All (λ b. b.close ≡ n.of_nat (close_of b)) bars
      → sum + sum_of close_of bars ≤ exact_limit
      → add_closes (n.of_nat sum) bars ≡ n.of_nat (sum + sum_of close_of bars)
  add_closes-exact sum [] e h = ap n.of_nat (omega arith)
  add_closes-exact sum (b ∷ bars) e h =
      ap (λ c. add_closes (n.add (n.of_nat sum) c) bars) e.0
      ∙ ap (λ s. add_closes s bars) (add_exact sum (close_of b) (omega (arith, h)))
      ∙ add_closes-exact (sum + close_of b) bars e.1 (omega (arith, h))
      ∙ ap n.of_nat (omega arith)

  window_sum-exact :
      (bars : List (Bar N))
      → IsExact close_of bars
      → window_sum bars ≡ n.of_nat (sum_of close_of bars)
  window_sum-exact bars e =
      add_closes-exact 0 bars e.0 (omega (arith, e.1)) ∙ ap n.of_nat (omega arith)

  -- A window that moves by one candle.
  window_sum-slides :
      (h : Bar N) (window : List (Bar N)) (b : Bar N)
      → IsExact close_of (h ∷ window ++ b ∷ [])
      → n.sub (n.add (window_sum (h ∷ window)) b.close) h.close ≡ window_sum (window ++ b ∷ [])
  window_sum-slides h window b e =
      let full = h ∷ window ++ b ∷ [] in
      let rest : IsExact close_of (window ++ b ∷ []) = (e.0.1, omega (arith, e.1)) in
      let added : n.add (window_sum (h ∷ window)) b.close ≡ window_sum full =
        sym (add_closes-append (n.of_nat 0) (h ∷ window) b) in
      ap (λ s. n.sub s h.close) (added ∙ window_sum-exact full e)
      ∙ ap (n.sub (n.of_nat (sum_of close_of full))) e.0.0
      ∙ sub_exact (close_of h) (sum_of close_of (window ++ b ∷ [])) e.1
      ∙ sym (window_sum-exact (window ++ b ∷ []) rest)

  -- What one candle does to the sum and to the candles behind.
  next-slides :
      (period : ℕ) (before ahead : List (Bar N)) (b : Bar N)
      → 1 ≤ period
      → IsExact close_of (before ++ b ∷ [])
      → let seen = before ++ b ∷ [] in
        let behind = last period before ++ b ∷ ahead in
        (next_sum period (length before) (window_sum (last period before)) b behind
          ≡ window_sum (last period seen))
        × (next_behind period (length before) behind ≡ last period seen ++ ahead)
  unfolding next_sum next_behind
  next-slides period before ahead b p e = elim (Bool-cases (leb period (length before))) [
    | inl f ↦
        let k = length before - period in
        let (h, window, old, new) = slides period before b p f in
        let whole : IsExact close_of (h ∷ window ++ b ∷ []) =
          subst (IsExact close_of)
            (drop-append_le k before (b ∷ []) (omega arith) ∙ ap (λ w. w ++ b ∷ []) old)
            (IsExact-drop close_of k (before ++ b ∷ []) e) in
        (
          rw (f, old, new) (window_sum-slides h window b whole),
          rw (f, old, new) (sym (append_assoc window (b ∷ []) ahead)),
        )
    | inr f ↦
        let new = grows period before b f in
        (
          rw (f, new) (sym (add_closes-append (n.of_nat 0) (last period before) b)),
          rw (f, new) (sym (append_assoc (last period before) (b ∷ []) ahead)),
        )
  ]

  average_from-averages :
      (period : ℕ) (before ahead : List (Bar N))
      → 1 ≤ period
      → IsExact close_of (before ++ ahead)
      → average_from period
          (length before)
          (window_sum (last period before))
          ahead
          (last period before ++ ahead)
        ≡ averages period before ahead
  unfolding average_from
  average_from-averages period before [] p e = refl
  average_from-averages period before (b ∷ ahead) p e =
      let all : IsExact close_of ((before ++ b ∷ []) ++ ahead) =
        subst (IsExact close_of) (sym (append_assoc before (b ∷ []) ahead)) e in
      let s =
        next-slides period before ahead b p
          (IsExact-prefix close_of (before ++ b ∷ []) ahead all) in
      let l : length before + 1 ≡ length (before ++ b ∷ []) =
        omega (arith, length-append before (b ∷ [])) in
      rw (s.0, s.1, l, average_from-averages period (before ++ b ∷ []) ahead p all) refl

  -- The moving average, which keeps a running sum, is at each candle the average of the last candles,
  -- as many as the period has, and there is none where there are fewer; for closes that are whole
  -- numbers and sum up to no more than 2^53, where floating point adds and subtracts exactly.
  pub moving_average-averages :
      (candles : List (Bar N)) (period : ℕ)
      → 1 ≤ period
      → IsExact close_of candles
      → moving_average candles period ≡ averages period [] candles
  unfolding moving_average
  moving_average-averages candles period p e =
      ap (λ w. average_from period 0 (window_sum w) candles (w ++ candles))
        (sym (drop_nil (0 - period)))
      ∙ average_from-averages period [] candles p e
