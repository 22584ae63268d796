-- ===== src/Charts/Appended.antt =====
-- apps/web/src/operator/resultChartModel.ts: an incremental update gives the series of a rebuild.
use montlok_terminal.Prelude.{
  ◌≡◌, ◌⊎◌, refl, ap, inl, inr, true, List, [], ◌∷◌, ◌++◌, some, arith, length, Bool-cases, ltb,
}
use montlok_terminal.Prelude.Numbers.{Numbers}
use montlok_terminal.Charts.Points.{TimePoint, same_point, appended_from, appended_points}

module _ {N : Type 0} ⦃n : Numbers N⦄ (same_eq : (a b : N) → n.same a b ≡ true → a ≡ b) where
  -- The points to update the shown series by: those that follow it, or also its last point, with
  -- another value at the same time.
  abbrev pub Updates : List (TimePoint N) → List (TimePoint N) → List (TimePoint N) → Type 0
  Updates previous next rest =
      (previous ++ rest ≡ next)
      ⊎ ((init : List (TimePoint N)) × (p : TimePoint N) × (q : TimePoint N) × (tail : List
            (TimePoint N))
          × (previous ≡ init ++ p ∷ [])
          × (rest ≡ q ∷ tail)
          × (init ++ rest ≡ next)
          × (p.time ≡ q.time))

  Updates-cons :
      (p q : TimePoint N) (previous next rest : List (TimePoint N))
      → p ≡ q
      → Updates previous next rest
      → Updates (p ∷ previous) (q ∷ next) rest
  Updates-cons p q previous next rest e (inl h) = inl (ground (arith, e, h))
  Updates-cons p q previous next rest e (inr (init, l, m, tail, a, b, c, d)) =
      inr (p ∷ init, l, m, tail, ap (◌∷◌ p) a, b, ground (arith, e, c), d)

  same_point-eq : (p q : TimePoint N) → same_point p q ≡ true → p ≡ q
  same_point-eq p q h = ground (arith, h, same_eq p.time q.time, same_eq p.value q.value)

  appended_from-Updates :
      (previous next rest : List (TimePoint N))
      → appended_from previous next ≡ some rest
      → Updates previous next rest
  unfolding appended_from
  appended_from-Updates [] next rest h = absurd (ground (arith, h))
  appended_from-Updates (p ∷ []) [] rest h = absurd (ground (arith, h))
  appended_from-Updates (p ∷ []) (q ∷ next) rest h = elim (Bool-cases (n.same p.time q.time)) [
    | inl t ↦ elim (Bool-cases (n.same p.value q.value)) [
      | inl v ↦
          let e : p ≡ q = same_point-eq p q (ground (arith, t, v)) in
          inl (ground (arith, h, t, v, e))
      | inr v ↦ inr (
        [],
        p,
        q,
        next,
        refl,
        ground (arith, h, t, v),
        ground (arith, h, t, v),
        same_eq p.time q.time t,
      )
    ]
    | inr t ↦ absurd (ground (arith, h, t))
  ]
  appended_from-Updates (p ∷ p' ∷ previous) [] rest h = absurd (ground (arith, h))
  appended_from-Updates (p ∷ p' ∷ previous) (q ∷ next) rest h = elim (Bool-cases (same_point p q)) [
    | inl e ↦
        Updates-cons p q (p' ∷ previous) next rest (same_point-eq p q e)
          (appended_from-Updates (p' ∷ previous) next rest (ground (arith, h, e)))
    | inr e ↦ absurd (ground (arith, h, e))
  ]

  -- Where the chart is updated by single points, the points make the series that is shown into the
  -- next one: they follow it, or they follow it without its last point, which they replace at its
  -- time. Where numbers that compare equal are equal.
  pub appended_points-Updates :
      (previous next rest : List (TimePoint N))
      → appended_points previous next ≡ some rest
      → Updates previous next rest
  unfolding appended_points
  appended_points-Updates previous next rest h =
      elim (Bool-cases (ltb (length next) (length previous))) [
        | inl q ↦ absurd (ground (arith, h, q))
        | inr q ↦ appended_from-Updates previous next rest (ground (arith, h, q))
      ]
