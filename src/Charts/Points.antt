-- ===== src/Charts/Points.antt =====
-- apps/web/src/operator/resultChartModel.ts: the points of a series in the order that the chart needs,
-- and the update of a series.
use montlok_terminal.Prelude.{
  ◌^◌, Bool, true, false, not, ◌&&◌, List, [], ◌∷◌, Option, none, some, if◌then◌else◌, length,
  filter, ltb, ◌==◌, string_eq,
}
use montlok_terminal.Prelude.Numbers.{Numbers, at_least}
use montlok_terminal.Prelude.Sorting.{sort_by}
use montlok_terminal.Json.{Json}

pub record TimePoint (N : Type 0) : Type 0 where
  pub time : N
  pub value : N

-- Whether `finite` converts the value: neither missing nor `null` nor the empty text.
abbrev is_given : Option Json → Bool
is_given none = false
is_given (some Json.null) = false
is_given (some (Json.string s)) = not (s == "")
is_given (some j) = true

module _ {N : Type 0} ⦃n : Numbers N⦄ where
  unfoldable pub finite : Option Json → Option N
  finite value =
      if is_given value && n.is_finite (n.number value) then some (n.number value) else none

  abbrev seconds_of : N → N
  seconds_of x = if n.lt (n.of_nat (10 ^ 12)) x then n.div x (n.of_nat 1000) else x

  abbrev floored : N → Option N
  floored x =
      if at_least x (n.of_nat 946684800) && n.lt x (n.of_nat 7258118400)
      then some (n.of_nat (n.to_nat x))
      else none

  -- `chartTime`
  unfoldable pub chart_time : Option Json → Option N
  chart_time value = elim (finite value) [ none ↦ none | some x ↦ floored (seconds_of x) ]

  abbrev pub is_point : TimePoint N → Bool
  is_point p = n.is_finite p.time && n.is_finite p.value

  -- `points.every(…)`: the points from one on, and those after the first
  unfoldable pub rises_from : TimePoint N → List (TimePoint N) → Bool
  rises_from p [] = true
  rises_from p (q ∷ qs) = let rest = rises_from q qs in is_point q && n.lt p.time q.time && rest

  unfoldable pub is_ordered : List (TimePoint N) → Bool
  is_ordered [] = true
  is_ordered (p ∷ ps) = is_point p && rises_from p ps

  -- the map of the points by their time: a later point takes the place of an earlier one
  unfoldable pub put_point : List (TimePoint N) → TimePoint N → List (TimePoint N)
  put_point [] p = p ∷ []
  put_point (q ∷ qs) p = if n.same q.time p.time then p ∷ qs else q ∷ put_point qs p

  unfoldable pub put_points : List (TimePoint N) → List (TimePoint N) → List (TimePoint N)
  put_points into [] = into
  put_points into (p ∷ ps) = put_points (put_point into p) ps

  abbrev pub earlier : TimePoint N → TimePoint N → Bool
  earlier p q = n.lt p.time q.time

  unfoldable pub ordered_points : List (TimePoint N) → List (TimePoint N)
  ordered_points points =
      if is_ordered points then points else sort_by earlier (put_points [] (filter is_point points))

  abbrev pub same_point : TimePoint N → TimePoint N → Bool
  same_point p q = n.same p.time q.time && n.same p.value q.value

  -- `appendedPoints`, from a position on at which both series agreed so far. What is left of the
  -- previous series is not empty; the next one is no shorter.
  unfoldable pub appended_from :
      List (TimePoint N) → List (TimePoint N) → Option (List (TimePoint N))
  appended_from [] next = none
  appended_from (p ∷ []) [] = none
  appended_from (p ∷ []) (q ∷ next) =
      if not (n.same p.time q.time)
      then none
      else some (if n.same p.value q.value then next else q ∷ next)
  appended_from (p ∷ p' ∷ previous) [] = none
  appended_from (p ∷ p' ∷ previous) (q ∷ next) =
      let rest = appended_from (p' ∷ previous) next in if same_point p q then rest else none

  unfoldable pub appended_points :
      List (TimePoint N) → List (TimePoint N) → Option (List (TimePoint N))
  appended_points previous next =
      if ltb (length next) (length previous) then none else appended_from previous next
