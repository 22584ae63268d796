-- ===== src/Analytics/Allocation.antt =====
-- apps/web/src/pages/Account/allocationModel.ts: the assets of an account by currency.
use montlok_terminal.Prelude.{
  ℕ, ◌+◌, Bool, false, not, ◌&&◌, List, [], ◌∷◌, Option, none, some, map, String, ◌==◌, string_eq,
  if◌then◌else◌,
}
use montlok_terminal.Prelude.Numbers.{Numbers, or_zero}
use montlok_terminal.Prelude.Sorting.{sort_by}
use montlok_terminal.JsMap.{get, set}
use montlok_terminal.Json.{Json}
use montlok_terminal.Console.Upload.{is_truthy, is_null}
use montlok_terminal.Analytics.Fields.{Row, text_or}

pub record Allocation (N : Type 0) : Type 0 where
  pub currency : String
  pub value : N
  pub share : N

pub record AssetAllocation (N : Type 0) : Type 0 where
  pub slices : List (Allocation N)
  pub positive : N
  pub negative : N
  pub missing : ℕ

-- The variables of the loop over the balances.
pub record Balances (N : Type 0) : Type 0 where
  pub values : List (String × N)
  pub negative : N
  pub missing : ℕ

abbrev has_currency : Option Json → Bool
has_currency none = false
has_currency (some j) = is_truthy j

abbrev is_blank : Json → Bool
is_blank (Json.string s) = s == ""
is_blank j = is_null j

abbrev has_equity : Option Json → Bool
has_equity none = false
has_equity (some j) = not (is_blank j)

abbrev pub currency_of : Row → String
currency_of row = text_or (get row "ccy") ""

module _ {N : Type 0} ⦃n : Numbers N⦄ where
  abbrev pub equity : Row → N
  equity row = n.number (get row "eqUsd")

  -- Later values of a currency are added to the earlier ones.
  abbrev pub add_value : List (String × N) → String → N → List (String × N)
  add_value values currency value =
      set values currency (n.add (or_zero (get values currency)) value)

  -- `reduce` over the values of the map
  abbrev pub total : N → List (String × N) → N
  total sum [] = sum
  total sum ((currency, value) ∷ values) = total (n.add sum value) values

  abbrev pub slice_of : N → String × N → Allocation N
  slice_of positive entry = record {
    currency = entry.0;
    value = entry.1;
    share = n.div entry.1 positive;
  }

  abbrev pub larger : Allocation N → Allocation N → Bool
  larger a b = n.lt b.value a.value

module _ (N : Type 0) ⦃n : Numbers N⦄ where
  -- The negation of the condition under which a row counts as missing.
  abbrev pub is_counted : Row → Bool
  is_counted row =
      has_currency (get row "ccy") && has_equity (get row "eqUsd") && n.is_finite (equity row)

  unfoldable pub add_balance : Balances N → Row → Balances N
  add_balance b row =
      if is_counted row
      then record {
        values =
            if n.lt (n.of_nat 0) (equity row)
            then add_value b.values (currency_of row) (equity row)
            else b.values;
        negative =
            if n.lt (equity row) (n.of_nat 0) then n.add b.negative (equity row) else b.negative;
        missing = b.missing;
      }
      else record b { missing = b.missing + 1 }

  abbrev pub add_balances : Balances N → List Row → Balances N
  add_balances b [] = b
  add_balances b (row ∷ rows) = add_balances (add_balance b row) rows

  abbrev pub no_balances : Balances N
  no_balances = record { values = []; negative = n.of_nat 0; missing = 0 }

  abbrev pub allocation_of : Balances N → AssetAllocation N
  allocation_of b =
      let positive = total (n.of_nat 0) b.values in
      record {
        slices = sort_by larger (map (slice_of positive) b.values);
        positive = positive;
        negative = b.negative;
        missing = b.missing;
      }

  unfoldable pub asset_allocation : List Row → AssetAllocation N
  asset_allocation balances = allocation_of (add_balances no_balances balances)
