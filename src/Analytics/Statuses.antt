-- ===== src/Analytics/Statuses.antt =====
-- apps/web/src/pages/ExecutionAnalytics/executionModel.ts: the orders are counted by status.
use montlok_terminal.Prelude.{
  ℕ, ◌+◌, String, ◌≡◌, refl, sym, ◌∙◌, inl, inr, Bool, List, [], ◌∷◌, some, arith, ◌==◌, string_eq,
  nat_eq, length, filter, Bool-cases, Distinct, ltb, All,
}
use montlok_terminal.Prelude.Numbers.{Numbers}
use montlok_terminal.Prelude.Sorting.{sum_of, sum_of-sort_by, sort_by-All}
use montlok_terminal.JsMap.{get, set, keys, Distinct-keys-set, get-set, entries-get}
use montlok_terminal.Analytics.Fields.{Row}
use montlok_terminal.Analytics.Execution.{
  ExecutionDetail, Distribution, value_at, status_of, next_status, count_status, count_statuses,
  map_values, listed, execution_analytics,
}

abbrev Counts : Type 0
Counts = List (String × Distribution ℕ)

-- The orders that a label of the chart stands for.
abbrev pub has_label : String → Row → Bool
has_label label order = (status_of order).0 == label

abbrev pub counted : Distribution ℕ → ℕ
counted d = d.value

set-sum :
    (m : Counts) (k : String) (d : Distribution ℕ)
    → sum_of counted (map_values (set m k d)) + value_at (get m k)
      ≡ sum_of counted (map_values m) + d.value
unfolding set
set-sum [] k d = omega arith
set-sum ((j, w) ∷ m) k d = ground (arith, set-sum m k d)

count_statuses-sum :
    (m : Counts) (orders : List Row)
    → sum_of counted (map_values (count_statuses m orders))
      ≡ sum_of counted (map_values m) + length orders
unfolding count_statuses count_status
count_statuses-sum m [] = omega arith
count_statuses-sum m (o ∷ os) =
    omega (arith, count_statuses-sum (count_status m o) os, set-sum m (status_of o).0 _)

count_statuses-value :
    (m : Counts) (orders : List Row) (label : String)
    → value_at (get (count_statuses m orders) label)
      ≡ value_at (get m label) + length (filter (has_label label) orders)
unfolding count_statuses count_status
count_statuses-value m [] label = omega arith
count_statuses-value m (o ∷ os) label = ground (
  arith,
  count_statuses-value (count_status m o) os label,
  get-set m (status_of o).0 (next_status m (status_of o)) label,
  string_eq.beq_iff (status_of o).0 label,
)

-- Each entry stands under its label.
abbrev IsLabelled : Counts → Type 0
IsLabelled m = Distinct (keys m) × All (λ x. x.1.label ≡ x.0) m

set-All :
    (m : Counts) (k : String) (d : Distribution ℕ)
    → d.label ≡ k
    → All (λ x. x.1.label ≡ x.0) m
    → All (λ x. x.1.label ≡ x.0) (set m k d)
unfolding set
set-All [] k d h a = (h, tt)
set-All ((j, w) ∷ m) k d h a = elim (Bool-cases (j == k)) [
  | inl q ↦ rw q (h ∙ sym ((string_eq.beq_iff j k).0 q), a.1)
  | inr q ↦ rw q (a.0, set-All m k d h a.1)
]

count_statuses-IsLabelled :
    (m : Counts) (orders : List Row) → IsLabelled m → IsLabelled (count_statuses m orders)
unfolding count_statuses count_status
count_statuses-IsLabelled m [] h = h
count_statuses-IsLabelled m (o ∷ os) h =
    count_statuses-IsLabelled (count_status m o) os
      (Distinct-keys-set m (status_of o).0 _ h.0, set-All m (status_of o).0 _ refl h.1)

All-map_values :
    (P : Distribution ℕ → Type 0) (m : Counts) → All (λ x. P x.1) m → All P (map_values m)
All-map_values P [] a = tt
All-map_values P ((k, d) ∷ m) a = (a.0, All-map_values P m a.1)

labelled-values :
    (orders : List Row) (m : Counts)
    → All (λ x. (get (count_statuses [] orders) x.0 ≡ some x.1)) m
    → All (λ x. x.1.label ≡ x.0) m
    → All (λ x. x.1.value ≡ length (filter (has_label x.1.label) orders)) m
labelled-values orders [] g l = tt
labelled-values orders ((k, d) ∷ m) g l =
    (ground (arith, g.0, l.0, count_statuses-value [] orders k), labelled-values orders m g.1 l.1)

-- The bars of the chart of statuses add up to the orders, and each bar is as high as there are
-- orders with a status of its label.
pub execution_analytics-statuses :
    (N : Type 0) ⦃n : Numbers N⦄ (detail : ExecutionDetail)
    → let a = execution_analytics {N = N} detail in
      (sum_of counted a.statuses ≡ length a.orders)
      × All (λ d. d.value ≡ length (filter (has_label d.label) a.orders)) a.statuses
unfolding execution_analytics
execution_analytics-statuses N detail =
    let orders = listed detail "orders" detail.orders in
    let m = count_statuses [] orders in
    let h = count_statuses-IsLabelled [] orders (tt, tt) in
    (
      omega (
        arith,
        sum_of-sort_by (λ a b. ltb b.value a.value) counted (map_values m),
        count_statuses-sum [] orders,
      ),
      sort_by-All (λ a b. ltb b.value a.value) _ (map_values m)
          (All-map_values _ m (labelled-values orders m (entries-get m h.0) h.1)),
    )
