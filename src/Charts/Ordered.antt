-- ===== src/Charts/Ordered.antt =====
-- apps/web/src/operator/resultChartModel.ts: the points of a series rise in time, each time once.
use montlok_terminal.Prelude.{
  ◌≡◌, sym, inl, inr, true, false, List, [], ◌∷◌, arith, filter, All, Bool-cases,
}
use montlok_terminal.Prelude.Numbers.{Numbers}
use montlok_terminal.Prelude.Sorting.{sort_by, insert_by, sort_by-All}
use montlok_terminal.Charts.Points.{
  TimePoint, is_point, rises_from, is_ordered, put_point, put_points, earlier, ordered_points,
}

module _ {N : Type 0} ⦃n : Numbers N⦄ where
  abbrev Before : TimePoint N → List (TimePoint N) → Type 0
  Before p [] = Unit
  Before p (q ∷ qs) = n.lt p.time q.time ≡ true

  -- Each point is later than the one in front of it.
  abbrev pub Rises : List (TimePoint N) → Type 0
  Rises [] = Unit
  Rises (p ∷ ps) = Before p ps × Rises ps

  abbrev Free : TimePoint N → List (TimePoint N) → Type 0
  Free p ps = All (λ q. n.same q.time p.time ≡ false) ps

  abbrev Apart : List (TimePoint N) → Type 0
  Apart [] = Unit
  Apart (p ∷ ps) = Free p ps × Apart ps

  abbrev pub AreFinite : List (TimePoint N) → Type 0
  AreFinite ps = All (λ p. is_point p ≡ true) ps

  rises_from-Rises :
      (p : TimePoint N) (ps : List (TimePoint N))
      → rises_from p ps ≡ true
      → Rises (p ∷ ps) × AreFinite ps
  unfolding rises_from
  rises_from-Rises p [] h = ((tt, tt), tt)
  rises_from-Rises p (q ∷ qs) h =
      let r = rises_from-Rises q qs (ground (arith, h)) in
      ((ground (arith, h), r.0), (ground (arith, h), r.1))

  is_ordered-Rises : (ps : List (TimePoint N)) → is_ordered ps ≡ true → Rises ps × AreFinite ps
  unfolding is_ordered
  is_ordered-Rises [] h = (tt, tt)
  is_ordered-Rises (p ∷ ps) h =
      let r = rises_from-Rises p ps (ground (arith, h)) in (r.0, (ground (arith, h), r.1))

  filter-AreFinite : (ps : List (TimePoint N)) → AreFinite (filter is_point ps)
  filter-AreFinite [] = tt
  filter-AreFinite (p ∷ ps) = elim (Bool-cases (is_point p)) [
    | inl q ↦ rw q (q, filter-AreFinite ps)
    | inr q ↦ rw q (filter-AreFinite ps)
  ]

  put_point-All {κ} :
      (P : TimePoint N → Type κ) (ps : List (TimePoint N)) (p : TimePoint N)
      → All P ps
      → P p
      → All P (put_point ps p)
  unfolding put_point
  put_point-All P [] p a h = (h, tt)
  put_point-All P (q ∷ qs) p a h = elim (Bool-cases (n.same q.time p.time)) [
    | inl e ↦ rw e (h, a.1)
    | inr e ↦ rw e (a.0, put_point-All P qs p a.1 h)
  ]

  put_points-AreFinite :
      (into ps : List (TimePoint N))
      → AreFinite into
      → AreFinite ps
      → AreFinite (put_points into ps)
  unfolding put_points
  put_points-AreFinite into [] a b = a
  put_points-AreFinite into (p ∷ ps) a b =
      put_points-AreFinite (put_point into p) ps (put_point-All _ into p a b.0) b.1

  insert_by-Before :
      (x z : TimePoint N) (ys : List (TimePoint N))
      → n.lt z.time x.time ≡ true
      → Before z ys
      → Before z (insert_by earlier x ys)
  unfolding insert_by
  insert_by-Before x z [] h f = h
  insert_by-Before x z (y ∷ ys) h f = elim (Bool-cases (earlier y x)) [
    | inl q ↦ rw q f
    | inr q ↦ rw q h
  ]

-- Numbers that compare equal are equal, and of two finite numbers that differ one is less.
module _ {N : Type 0} ⦃n : Numbers N⦄ (same_eq : (a b : N) → n.same a b ≡ true → a ≡ b)
    (differ : (a b : N)
      → n.is_finite a ≡ true
      → n.is_finite b ≡ true
      → n.same a b ≡ false
      → n.lt a b ≡ false
      → n.lt b a ≡ true) where
  put_point-Apart : (ps : List (TimePoint N)) (p : TimePoint N) → Apart ps → Apart (put_point ps p)
  unfolding put_point
  put_point-Apart [] p a = (tt, tt)
  put_point-Apart (q ∷ qs) p a = elim (Bool-cases (n.same q.time p.time)) [
    | inl e ↦ rw e (rw (sym (same_eq q.time p.time e)) a.0, a.1)
    | inr e ↦ rw e (
      put_point-All (λ r. n.same r.time q.time ≡ false) qs p a.0
          (ground (arith, e, same_eq p.time q.time)),
      put_point-Apart qs p a.1,
    )
  ]

  put_points-Apart : (into ps : List (TimePoint N)) → Apart into → Apart (put_points into ps)
  unfolding put_points
  put_points-Apart into [] a = a
  put_points-Apart into (p ∷ ps) a =
      put_points-Apart (put_point into p) ps (put_point-Apart into p a)

  insert_by-Rises :
      (x : TimePoint N) (ys : List (TimePoint N))
      → is_point x ≡ true
      → AreFinite ys
      → Free x ys
      → Rises ys
      → Rises (insert_by earlier x ys)
  unfolding insert_by
  insert_by-Rises x [] h a f r = (tt, tt)
  insert_by-Rises x (y ∷ ys) h a f r = elim (Bool-cases (earlier y x)) [
    | inl q ↦ rw q (insert_by-Before x y ys q r.0, insert_by-Rises x ys h a.1 f.1 r.1)
    | inr q ↦ rw q (differ y.time x.time (ground (arith, a.0)) (ground (arith, h)) f.0 q, r)
  ]

  sort_by-Rises : (ps : List (TimePoint N)) → AreFinite ps → Apart ps → Rises (sort_by earlier ps)
  unfolding sort_by
  sort_by-Rises [] a d = tt
  sort_by-Rises (p ∷ ps) a d =
      insert_by-Rises p (sort_by earlier ps) a.0 (sort_by-All earlier _ ps a.1)
        (sort_by-All earlier _ ps d.0) (sort_by-Rises ps a.1 d.1)

  -- The points that the chart is given are finite and each is later than the one in front of it, in
  -- whatever order they came and however often a time came. Where numbers that compare equal are
  -- equal, and of two finite numbers that differ one is less.
  pub ordered_points-Rises :
      (points : List (TimePoint N))
      → Rises (ordered_points points) × AreFinite (ordered_points points)
  unfolding ordered_points
  ordered_points-Rises points = elim (Bool-cases (is_ordered points)) [
    | inl q ↦ rw q (is_ordered-Rises points q)
    | inr q ↦
        let ps = put_points [] (filter is_point points) in
        let a = put_points-AreFinite [] (filter is_point points) tt (filter-AreFinite points) in
        rw q (
          sort_by-Rises ps a (put_points-Apart [] (filter is_point points) tt),
          sort_by-All earlier _ ps a,
        )
  ]
