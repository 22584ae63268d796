-- ===== src/Analytics/Examples.antt =====
-- apps/web/src/pages: the analytics of concrete records.
use montlok_terminal.Prelude.{
  none, is_some, if◌then◌else◌, ℕ, ◌+◌, nat_eq, arith, List, String, ◌≡◌, refl, true, not, ◌&&◌, [],
  ◌∷◌, Option, some, length, filter, All,
}
use montlok_terminal.Prelude.Naturals.{naturals, exact}
use montlok_terminal.Prelude.Sorting.{Ascends, sum_of, sort_by, insert_by}
use montlok_terminal.JsMap.{set}
use montlok_terminal.Json.{bool, number, string}
use montlok_terminal.Analytics.Fields.{Row}
use montlok_terminal.Analytics.Execution.{ExecutionDetail, ExecutionAnalytics, execution_analytics}
use montlok_terminal.Analytics.Allocation.{AssetAllocation, larger, add_balance, asset_allocation}
use montlok_terminal.Analytics.Allocated.{
  value_from, slice_count, sum_negative, uncounted, asset_allocation-values,
}
use montlok_terminal.Analytics.Classes.{
  count_rows, has_fee, is_usdt_fee, is_other_fee, has_amount, has_time, execution_analytics-counts,
}
use montlok_terminal.Analytics.Volume.{not_later, IsBucket, execution_analytics-volume}
use montlok_terminal.Analytics.Statuses.{counted, has_label, execution_analytics-statuses}

abbrev fill : String → String → String → String → Row
fill time quantity currency fee =
    ("instrument", string "BTC-USDT.OKX")
    ∷ ("time", number time)
    ∷ ("quantity", string quantity)
    ∷ ("price", string "100")
    ∷ ("fee", string fee)
    ∷ ("feeCurrency", string currency)
    ∷ []

abbrev detail : ExecutionDetail
detail = record {
  sources = ("orders", bool true) ∷ ("fills", bool true) ∷ [];
  orders_total = some (number "2");
  fills_total = some (number "4");
  orders = some ((("status", string "filled") ∷ []) ∷ (("status", string "REJECTED") ∷ []) ∷ []);
  fills = some (
      fill "1700000900" "2" "USDT" "3"
      ∷ fill "1700000000" "1" "BTC" "1"
      ∷ fill "1700000001" "1" "" "1"
      ∷ fill "" "x" "USDT" ""
      ∷ []);
}

abbrev analytics : ExecutionAnalytics (Option ℕ)
analytics = execution_analytics detail

execution_analytics-counts_example :
    (analytics.fee_records ≡ count_rows (Option ℕ) (is_usdt_fee (Option ℕ)) analytics.fills)
    × (analytics.fees_other_currency
        ≡ count_rows (Option ℕ) (is_other_fee (Option ℕ)) analytics.fills)
    × (analytics.fee_records + analytics.fees_other_currency + analytics.fees_without_currency
          + analytics.unknown_fee
        ≡ length analytics.fills)
    × (analytics.unknown_fee
        ≡ count_rows (Option ℕ) (λ f. not (has_fee (Option ℕ) f)) analytics.fills)
    × (analytics.notional_records ≡ count_rows (Option ℕ) (has_amount (Option ℕ)) analytics.fills)
    × (analytics.missing_notional
        ≡ count_rows (Option ℕ) (λ f. not (has_amount (Option ℕ) f)) analytics.fills)
    × (analytics.amount_without_time
        ≡ count_rows
            (Option ℕ)
            (λ f. has_amount (Option ℕ) f && not (has_time (Option ℕ) f))
            analytics.fills)
execution_analytics-counts_example = execution_analytics-counts (Option ℕ) detail

execution_analytics-volume_example :
    Ascends not_later analytics.volume × All (λ x. IsBucket x.0) analytics.volume
execution_analytics-volume_example = execution_analytics-volume (Option ℕ) detail

execution_analytics-statuses_example :
    (sum_of counted analytics.statuses ≡ length analytics.orders)
    × All (λ d. d.value ≡ length (filter (has_label d.label) analytics.orders)) analytics.statuses
execution_analytics-statuses_example = execution_analytics-statuses (Option ℕ) detail

abbrev balance : String → String → Row
balance currency equity = ("ccy", string currency) ∷ ("eqUsd", string equity) ∷ []

abbrev balances : List Row
balances = balance "BTC" "5" ∷ balance "ETH" "9" ∷ balance "BTC" "7" ∷ balance "SOL" "" ∷ []

abbrev allocation : AssetAllocation ℕ
allocation = asset_allocation ℕ ⦃n = exact⦄ balances

allocation_positive : allocation.positive ≡ 21
unfolding asset_allocation add_balance set sort_by insert_by
allocation_positive = refl

asset_allocation-values_example :
    All
      (λ a.
        (value_from ℕ ⦃n = exact⦄ none a.currency balances ≡ some a.value)
        × (a.share ≡ exact.div a.value allocation.positive))
      allocation.slices
    × ((currency : String)
        → slice_count ℕ ⦃n = exact⦄ currency allocation.slices
          ≡ (if is_some (value_from ℕ ⦃n = exact⦄ none currency balances) then 1 else 0))
    × Ascends (larger ⦃n = exact⦄) allocation.slices
    × (allocation.negative ≡ sum_negative ℕ ⦃n = exact⦄ 0 balances)
    × (allocation.missing ≡ uncounted ℕ ⦃n = exact⦄ balances)
asset_allocation-values_example =
    asset_allocation-values ℕ ⦃n = exact⦄ (λ a b h. ground (arith, h)) balances
