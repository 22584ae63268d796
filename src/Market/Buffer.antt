-- ===== src/Market/Buffer.antt =====
-- apps/web/src/operator/marketBuffer.ts: what arrived since the page was last brought up to date.
use montlok_terminal.Prelude.{
  String, Bool, true, false, not, ◌&&◌, List, [], ◌∷◌, ◌++◌, Option, none, some, if◌then◌else◌,
  take, string_eq,
}
use montlok_terminal.JsMap.{set, set_all}
use montlok_terminal.Json.{Json, Items, nil, cons, array}

-- What a property holds: nothing, parsed JSON, or a number that the page computed.
pub data Value (N : Type 0) : Type 0 where
  undefined : Value N
  json : Json → Value N
  num : N → Value N

abbrev pub Row : Type 0 → Type 0
Row N = List (String × Value N)

abbrev pub of_items : List Json → Items
of_items [] = nil
of_items (j ∷ js) = cons j (of_items js)

abbrev pub is_empty {ℓ} : {A : Type ℓ} → List A → Bool
is_empty [] = true
is_empty (x ∷ xs) = false

pub record MarketBuffer (N : Type 0) : Type 0 where
  pub pending : Row N
  pub trades : List Json
  pub trades_changed : Bool

abbrev pub new_buffer : {N : Type 0} → MarketBuffer N
new_buffer = record { pending = []; trades = []; trades_changed = false }

unfoldable pub append_trades : {N : Type 0} → MarketBuffer N → List Json → MarketBuffer N
append_trades b rows = record b { trades = take 60 (rows ++ b.trades); trades_changed = true }

-- `buffer.pending[key] = value`
abbrev pub put : {N : Type 0} → MarketBuffer N → String → Value N → MarketBuffer N
put b key value = record b { pending = set b.pending key value }

unfoldable pub drain : {N : Type 0} → MarketBuffer N → MarketBuffer N × Option (Row N)
drain b = if is_empty b.pending && not b.trades_changed then (b, none) else (
  record b { pending = []; trades_changed = false },
  some (
      set_all (set_all [] b.pending)
        (if b.trades_changed then ("trades", Value.json (array (of_items b.trades))) ∷ [] else [])),
)
