-- ===== src/Analytics/Execution.antt =====
-- apps/web/src/pages/ExecutionAnalytics/executionModel.ts: what the page counts and adds up from the
-- orders and fills of a run.
use montlok_terminal.Prelude.{
  ℕ, suc, String, ◌+◌, ◌-◌, ◌*◌, ◌/◌, Bool, true, false, not, ◌&&◌, ◌||◌, List, [], ◌∷◌, Option,
  none, some, if◌then◌else◌, ◌==◌, string_eq, nat_eq, length, get_or, ltb, filter, includes, map,
}
use montlok_terminal.Prelude.Sorting.{sort_by}
use montlok_terminal.Prelude.Numbers.{Numbers, or_zero}
use montlok_terminal.JsMap.{get, set, has}
use montlok_terminal.Json.{Json}
use montlok_terminal.Console.Upload.{is_truthy}
use montlok_terminal.Watchlist.Symbols.{upper}
use montlok_terminal.Analytics.Fields.{
  Row, text_of, text_or, is_text, finite, execution_time, fill_notional,
}

-- The properties that the function reads. `none` of `orders` and `fills` is anything but an array.
pub record ExecutionDetail : Type 0 where
  pub sources : Row
  pub orders_total : Option Json
  pub fills_total : Option Json
  pub orders : Option (List Row)
  pub fills : Option (List Row)

pub data Tone : Type 0 where
  normal warning negative : Tone

pub record Distribution (V : Type 0) : Type 0 where
  pub label : String
  pub value : V
  pub tone : Tone

abbrev statuses : List (String × (String × Tone))
statuses =
    ("INITIALIZED", ("已创建", normal))
    ∷ ("SUBMITTED", ("已提交", normal))
    ∷ ("ACCEPTED", ("已接受", normal))
    ∷ ("PENDING_UPDATE", ("修改中", warning))
    ∷ ("PENDING_CANCEL", ("撤单中", warning))
    ∷ ("PARTIALLY_FILLED", ("部分成交", normal))
    ∷ ("FILLED", ("已成交", normal))
    ∷ ("CANCELED", ("已撤单", normal))
    ∷ ("CANCELLED", ("已撤单", normal))
    ∷ ("EXPIRED", ("已过期", warning))
    ∷ ("REJECTED", ("拒单", negative))
    ∷ ("DENIED", ("风控拒绝", negative))
    ∷ []

-- `detail.sources?.[kind] === value`
abbrev pub is_source : ExecutionDetail → String → Bool → Bool
is_source detail kind b = elim (get detail.sources kind) [
  | some (Json.bool true) ↦ b
  | some (Json.bool false) ↦ not b
  | _ ↦ false
]

module _ (N : Type 0) ⦃n : Numbers N⦄ where
  unfoldable pub record_count : Bool → Option (List Row) → Option Json → Option ℕ
  record_count source none total = none
  record_count source (some rows) total = elim (finite {N = N} total) [
    | none ↦ none
    | some reported ↦
        if source && n.is_integer reported && not (n.lt reported (n.of_nat (length rows)))
        then some (n.to_nat reported)
        else none
  ]

-- What the loop over the fills adds up.
pub record Tally (N : Type 0) : Type 0 where
  pub buckets : List (ℕ × N)
  pub fees : List (String × N)
  pub notional : N
  pub notional_records : ℕ
  pub amount_without_time : ℕ
  pub usdt_fee : N
  pub fee_records : ℕ
  pub fees_without_currency : ℕ
  pub fees_other_currency : ℕ

abbrev pub bucket_of : ℕ → ℕ
bucket_of at = at / 300 * 300

abbrev pub has_currency : Option Json → Bool
has_currency none = false
has_currency (some j) = is_truthy j

module _ {N : Type 0} ⦃n : Numbers N⦄ where
  abbrev pub no_tally : Tally N
  no_tally = record {
    buckets = [];
    fees = [];
    notional = n.of_nat 0;
    notional_records = 0;
    amount_without_time = 0;
    usdt_fee = n.of_nat 0;
    fee_records = 0;
    fees_without_currency = 0;
    fees_other_currency = 0;
  }

  -- `map.set(key, (map.get(key) || 0) + amount)`
  unfoldable pub tally_amount : Tally N → Option N → Option ℕ → Tally N
  tally_amount t none at = t
  tally_amount t (some amount) none = record t {
    notional = n.add t.notional amount;
    notional_records = suc t.notional_records;
    amount_without_time = suc t.amount_without_time;
  }
  tally_amount t (some amount) (some at) = record t {
    notional = n.add t.notional amount;
    notional_records = suc t.notional_records;
    buckets = set t.buckets (bucket_of at) (n.add (or_zero (get t.buckets (bucket_of at))) amount);
  }

  unfoldable pub tally_fee : Tally N → Option N → Option Json → String → Tally N
  tally_fee t none currency instrument = t
  tally_fee t (some fee) currency instrument =
      if is_text currency "USDT"
      then record t {
        fee_records = suc t.fee_records;
        usdt_fee = n.add t.usdt_fee fee;
        fees = set t.fees instrument (n.add (or_zero (get t.fees instrument)) fee);
      }
      else if has_currency currency
      then record t { fees_other_currency = suc t.fees_other_currency }
      else record t { fees_without_currency = suc t.fees_without_currency }

  unfoldable pub tally_fill : Tally N → Row → Tally N
  tally_fill t fill =
      tally_fee (tally_amount t (fill_notional fill) (execution_time N (get fill "time")))
        (finite (get fill "fee")) (get fill "feeCurrency") (text_or (get fill "instrument") "品种未记录")

  unfoldable pub tally_fills : Tally N → List Row → Tally N
  tally_fills t [] = t
  tally_fills t (fill ∷ fills) = tally_fills (tally_fill t fill) fills

abbrev pub status_of : Row → String × Tone
status_of order = get_or (get statuses (upper (text_or (get order "status") ""))) ("未知状态", warning)

abbrev pub value_at : Option (Distribution ℕ) → ℕ
value_at none = 0
value_at (some d) = d.value

abbrev pub next_status : List (String × Distribution ℕ) → String × Tone → Distribution ℕ
next_status counts (label, tone) = record {
  label = label;
  value = value_at (get counts label) + 1;
  tone = tone;
}

unfoldable pub count_status : List (String × Distribution ℕ) → Row → List (String × Distribution ℕ)
count_status counts order = set counts (status_of order).0 (next_status counts (status_of order))

unfoldable pub count_statuses :
    List (String × Distribution ℕ) → List Row → List (String × Distribution ℕ)
count_statuses counts [] = counts
count_statuses counts (order ∷ orders) = count_statuses (count_status counts order) orders

abbrev pub map_values : {K V : Type 0} → List (K × V) → List V
map_values [] = []
map_values ((k, v) ∷ m) = v ∷ map_values m

-- `String(order.status).toUpperCase()`, where a missing status is the text `undefined`
abbrev pub is_rejected : Row → Bool
is_rejected order = elim (get order "status") [
  | none ↦ false
  | some j ↦ includes ("REJECTED" ∷ "DENIED" ∷ []) (upper (text_of j))
]

pub record ExecutionAnalytics (N : Type 0) : Type 0 where
  pub orders : List Row
  pub fills : List Row
  pub orders_total : Option ℕ
  pub fills_total : Option ℕ
  pub orders_source : Bool
  pub fills_source : Bool
  pub orders_partial : Bool
  pub fills_partial : Bool
  pub notional : Option N
  pub notional_records : ℕ
  pub missing_notional : ℕ
  pub amount_without_time : ℕ
  pub usdt_fee : Option N
  pub fee_records : ℕ
  pub fees_without_currency : ℕ
  pub fees_other_currency : ℕ
  pub unknown_fee : ℕ
  pub volume : List (ℕ × N)
  pub fees_by_instrument : List (Distribution N)
  pub statuses : List (Distribution ℕ)
  pub rejected : Option ℕ

abbrev pub listed : ExecutionDetail → String → Option (List Row) → List Row
listed detail kind none = []
listed detail kind (some rows) = if is_source detail kind false then [] else rows

abbrev is_partial : Option ℕ → List Row → Bool
is_partial none rows = true
is_partial (some total) rows = ltb (length rows) total

abbrev is_zero : Option ℕ → Bool
is_zero none = false
is_zero (some total) = total == 0

unfoldable pub rejected_count :
    Bool → List (String × Distribution ℕ) → List Row → Option ℕ → Option ℕ
rejected_count source counts orders total =
    if not source || has counts "未知状态" then none else elim orders [
      | [] ↦ if is_zero total then some 0 else none
      | order ∷ rest ↦ some (length (filter is_rejected (order ∷ rest)))
    ]

module _ {N : Type 0} ⦃n : Numbers N⦄ where
  abbrev fee_label : String × N → Distribution N
  fee_label (label, value) = record {
    label = label;
    value = value;
    tone = if n.lt value (n.of_nat 0) then normal else warning;
  }

  unfoldable pub execution_analytics : ExecutionDetail → ExecutionAnalytics N
  execution_analytics detail =
      let orders = listed detail "orders" detail.orders in
      let fills = listed detail "fills" detail.fills in
      let t : Tally N = tally_fills no_tally fills in
      let counts = count_statuses [] orders in
      let orders_source = is_source detail "orders" true in
      let fills_source = is_source detail "fills" true in
      let orders_total = record_count N orders_source detail.orders detail.orders_total in
      let fills_total = record_count N fills_source detail.fills detail.fills_total in
      let known_empty = fills_source && is_zero fills_total in
      record {
        orders = orders;
        fills = fills;
        orders_total = orders_total;
        fills_total = fills_total;
        orders_source = orders_source;
        fills_source = fills_source;
        orders_partial = is_partial orders_total orders;
        fills_partial = is_partial fills_total fills;
        notional = if not (t.notional_records == 0) || known_empty then some t.notional else none;
        notional_records = t.notional_records;
        missing_notional = length fills - t.notional_records;
        amount_without_time = t.amount_without_time;
        usdt_fee = if not (t.fee_records == 0) || known_empty then some t.usdt_fee else none;
        fee_records = t.fee_records;
        fees_without_currency = t.fees_without_currency;
        fees_other_currency = t.fees_other_currency;
        unknown_fee =
            length fills - t.fee_records - t.fees_without_currency - t.fees_other_currency;
        volume = sort_by (λ a b. ltb a.0 b.0) t.buckets;
        fees_by_instrument = map fee_label (sort_by (λ a b. n.lt (n.abs b.1) (n.abs a.1)) t.fees);
        statuses = sort_by (λ a b. ltb b.value a.value) (map_values counts);
        rejected = rejected_count orders_source counts orders orders_total;
      }
