-- ===== src/Analytics/Classes.antt =====
-- apps/web/src/pages/ExecutionAnalytics/executionModel.ts: every fill is in exactly one class.
use montlok_terminal.Prelude.{
  length-filter-le, ℕ, ◌+◌, ◌-◌, ◌≡◌, refl, Bool, not, ◌&&◌, List, [], ◌∷◌, arith, string_eq,
  nat_eq, length, filter, is_some, Option-cases,
}
use montlok_terminal.Prelude.Numbers.{Numbers}
use montlok_terminal.JsMap.{get}
use montlok_terminal.Analytics.Fields.{Row, is_text, finite, execution_time, fill_notional}
use montlok_terminal.Analytics.Execution.{
  ExecutionDetail, Tally, no_tally, tally_amount, has_currency, tally_fee, tally_fill, tally_fills,
  listed, execution_analytics,
}

module _ (N : Type 0) ⦃n : Numbers N⦄ where
  -- The classes of the fee of a fill: in USDT, in another currency, in none, and no number.
  abbrev pub has_fee : Row → Bool
  has_fee fill = is_some (finite {N = N} (get fill "fee"))

  abbrev pub is_usdt_fee : Row → Bool
  is_usdt_fee fill = has_fee fill && is_text (get fill "feeCurrency") "USDT"

  abbrev pub is_other_fee : Row → Bool
  is_other_fee fill =
      has_fee fill
      && not (is_text (get fill "feeCurrency") "USDT")
      && has_currency (get fill "feeCurrency")

  abbrev pub has_amount : Row → Bool
  has_amount fill = is_some (fill_notional {N = N} fill)

  abbrev pub has_time : Row → Bool
  has_time fill = is_some (execution_time N (get fill "time"))

  abbrev pub count_rows : (Row → Bool) → List Row → ℕ
  count_rows p rows = length (filter p rows)

  tally_fill-counts :
      (t : Tally N) (fill : Row)
      → let u = tally_fill t fill in
        (u.fee_records ≡ t.fee_records + count_rows is_usdt_fee (fill ∷ []))
        × (u.fees_other_currency ≡ t.fees_other_currency + count_rows is_other_fee (fill ∷ []))
        × (u.fee_records + u.fees_other_currency + u.fees_without_currency
            ≡ t.fee_records
              + t.fees_other_currency
              + t.fees_without_currency
              + count_rows has_fee (fill ∷ []))
        × (u.notional_records ≡ t.notional_records + count_rows has_amount (fill ∷ []))
        × (u.amount_without_time
            ≡ t.amount_without_time
              + count_rows (λ f. has_amount f && not (has_time f)) (fill ∷ []))
  unfolding tally_fill tally_fee tally_amount
  tally_fill-counts t fill = ground (
    arith,
    Option-cases (finite {N = N} (get fill "fee")),
    Option-cases (fill_notional {N = N} fill),
    Option-cases (execution_time N (get fill "time")),
  )

  count_cons :
      (p : Row → Bool) (x : Row) (xs : List Row)
      → count_rows p (x ∷ xs) ≡ count_rows p (x ∷ []) + count_rows p xs
  count_cons p x xs = ground arith

  tally_fills-counts :
      (t : Tally N) (fills : List Row)
      → let u = tally_fills t fills in
        (u.fee_records ≡ t.fee_records + count_rows is_usdt_fee fills)
        × (u.fees_other_currency ≡ t.fees_other_currency + count_rows is_other_fee fills)
        × (u.fee_records + u.fees_other_currency + u.fees_without_currency
            ≡ t.fee_records
              + t.fees_other_currency
              + t.fees_without_currency
              + count_rows has_fee fills)
        × (u.notional_records ≡ t.notional_records + count_rows has_amount fills)
        × (u.amount_without_time
            ≡ t.amount_without_time + count_rows (λ f. has_amount f && not (has_time f)) fills)
  unfolding tally_fills
  tally_fills-counts t [] = (omega arith, omega arith, omega arith, omega arith, omega arith)
  tally_fills-counts t (x ∷ xs) =
      let h = tally_fill-counts t x in
      let r = tally_fills-counts (tally_fill t x) xs in
      (
        omega (arith, h.0, r.0, count_cons is_usdt_fee x xs),
        omega (arith, h.1, r.1, count_cons is_other_fee x xs),
        omega (arith, h.2, r.2, count_cons has_fee x xs),
        omega (arith, h.3, r.3, count_cons has_amount x xs),
        omega (arith, h.4, r.4, count_cons (λ f. has_amount f && not (has_time f)) x xs),
      )

  -- The fills whose test fails are those that are left.
  count_not :
      (p : Row → Bool) (rows : List Row)
      → length rows - count_rows p rows ≡ count_rows (λ f. not (p f)) rows
  count_not p [] = refl
  count_not p (x ∷ xs) = ground (arith, count_not p xs, length-filter-le p xs)

  -- Every fill is counted in one class of fees: in USDT, in another currency, without a currency, or
  -- without a fee that is a number, and the last count is what the page calls unknown. Every fill has
  -- an amount or is counted as missing one, and of those with an amount the ones without a time are
  -- counted.
  pub execution_analytics-counts :
      (detail : ExecutionDetail)
      → let a = execution_analytics {N = N} detail in
        (a.fee_records ≡ count_rows is_usdt_fee a.fills)
        × (a.fees_other_currency ≡ count_rows is_other_fee a.fills)
        × (a.fee_records + a.fees_other_currency + a.fees_without_currency + a.unknown_fee
            ≡ length a.fills)
        × (a.unknown_fee ≡ count_rows (λ f. not (has_fee f)) a.fills)
        × (a.notional_records ≡ count_rows has_amount a.fills)
        × (a.missing_notional ≡ count_rows (λ f. not (has_amount f)) a.fills)
        × (a.amount_without_time ≡ count_rows (λ f. has_amount f && not (has_time f)) a.fills)
  unfolding execution_analytics
  execution_analytics-counts detail =
      let fills = listed detail "fills" detail.fills in
      let h = tally_fills-counts no_tally fills in
      let u = count_not has_fee fills in
      let m = count_not has_amount fills in
      let le = length-filter-le has_fee fills in
      (
        omega (arith, h.0),
        omega (arith, h.1),
        omega (arith, h.2, u, le),
        omega (arith, h.2, u, le),
        omega (arith, h.3),
        omega (arith, h.3, m),
        omega (arith, h.4),
      )
