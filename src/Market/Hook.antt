-- ===== src/Market/Hook.antt =====
-- apps/web/src/operator/useMarket.ts: what the hook shows, and what each answer and each message does
-- to it and to the buffer, after the guards.
use montlok_terminal.Prelude.{
  String, Bool, false, not, List, [], ◌∷◌, Option, none, some, if◌then◌else◌, string_eq, nat_eq,
  get_or,
}
use montlok_terminal.Prelude.Sorting.{sort_by}
use montlok_terminal.Prelude.Numbers.{Numbers}
use montlok_terminal.JsMap.{get, set_all}
use montlok_terminal.Json.{Json, array_items, nil, field, end}
use montlok_terminal.Console.Upload.{is_truthy, property_of, is_null}
use montlok_terminal.Market.Rows.{
  spread, has_length, at, property?, is_channel, is_candle_channel, first_property, find_instrument,
}
use montlok_terminal.Market.Buffer.{
  Value, Row, MarketBuffer, undefined, is_empty, append_trades, put,
}

pub record Candle (N : Type 0) : Type 0 where
  pub time : N
  pub open_price : N
  pub high : N
  pub low : N
  pub close : N
  pub volume : N

-- What the hook returns: `state`, `candles` and `candle`.
pub record Shown (N : Type 0) : Type 0 where
  pub state : Row N
  pub candles : List (Candle N)
  pub candle : Option (Candle N)

abbrev no_rows : {N : Type 0} → Value N
no_rows = Value.json (Json.array nil)

abbrev pub empty_shown : {N : Type 0} → Shown N
empty_shown = record {
  state =
      ("ticker", Value.json (Json.object end))
      ∷ (
        "book",
        Value.json
            (Json.object (field "asks" (Json.array nil) (field "bids" (Json.array nil) end))),
      )
      ∷ ("trades", no_rows)
      ∷ ("connected", Value.json (Json.bool false))
      ∷ [];
  candles = [];
  candle = none;
}

module _ {N : Type 0} where
  -- `row.key`
  abbrev pub value_of : Row N → String → Value N
  value_of row key = get_or (get row key) undefined

  abbrev assign : Shown N → Row N → Shown N
  assign s row = record s { state = set_all s.state row }

  abbrev json_value : Option Json → Value N
  json_value none = undefined
  json_value (some j) = Value.json j

  abbrev pub rows_of : List (String × Json) → Row N
  rows_of [] = []
  rows_of ((k, j) ∷ fields) = (k, Value.json j) ∷ rows_of fields

  -- the answer that defines the instrument, after the guard. The instrument is not empty.
  unfoldable pub show_definition : Shown N → Json → String → Shown N
  show_definition s rows instrument = elim (array_items rows) [
    | none ↦ assign s (("instrumentDefinition", undefined) ∷ [])
    | some list ↦ elim (find_instrument list instrument) [
      | none ↦ s
      | some definition ↦ assign s (("instrumentDefinition", json_value definition) ∷ [])
    ]
  ]

  abbrev pub has_ticker : Value N → Bool
  has_ticker (Value.json j) = is_truthy (property_of j "last")
  has_ticker _ = false

  abbrev pub has_book : Value N → Bool
  has_book (Value.json j) = has_length (property_of j "bids")
  has_book _ = false

  abbrev pub has_trades : Value N → Bool
  has_trades (Value.json j) = has_length j
  has_trades _ = false

  -- the answer with a snapshot, after the guard: the page first, then the buffer
  unfoldable pub show_snapshot : Shown N → List (String × Json) → Shown N
  show_snapshot s fields =
      let snapshot : Row N = rows_of fields in
      let kept : (Value N → Bool) → String → Value N = λ holds key.
        if holds (value_of s.state key) then value_of s.state key else value_of snapshot key in
      record s {
        state = set_all (set_all (set_all [] snapshot) s.state) (
            ("ticker", kept has_ticker "ticker")
            ∷ ("book", kept has_book "book")
            ∷ ("trades", kept has_trades "trades")
            ∷ []);
      }

  -- `snapshot.trades || []`, which a spread may refuse
  unfoldable pub bootstrap_trades : MarketBuffer N → List (String × Json) → MarketBuffer N
  bootstrap_trades b fields =
      let trades = get_or (get fields "trades") Json.null in
      if not (is_empty b.trades)
      then b
      else if is_truthy trades
      then elim (spread trades) [ some rows ↦ append_trades b rows | none ↦ b ]
      else append_trades b []

  abbrev pub show_error : Shown N → String → Shown N
  show_error s error = assign s (("error", Value.json (Json.string error)) ∷ [])

module _ {N : Type 0} ⦃n : Numbers N⦄ where
  -- `parseCandle`, which throws on `null`
  unfoldable pub parse_candle : Json → Option (Candle N)
  parse_candle values =
      if is_null values
      then none
      else some record {
        time = n.div (n.number (at values 0)) (n.of_nat 1000);
        open_price = n.number (at values 1);
        high = n.number (at values 2);
        low = n.number (at values 3);
        close = n.number (at values 4);
        volume = n.number (at values 5);
      }

  abbrev parse_candles : List Json → Option (List (Candle N))
  parse_candles [] = some []
  parse_candles (j ∷ js) = elim (parse_candle j) [
    | none ↦ none
    | some c ↦ elim (parse_candles js) [ none ↦ none | some cs ↦ some (c ∷ cs) ]
  ]

  -- `sort((a, b) => a.time - b.time)`
  abbrev pub earlier : Candle N → Candle N → Bool
  earlier a b = n.lt a.time b.time

  -- the answer with candles, after the guard; a candle that is `null` ends in the `catch`
  unfoldable pub show_candles : Shown N → List Json → Shown N
  show_candles s rows = elim (parse_candles rows) [
    | none ↦ show_error s "TypeError"
    | some candles ↦ record s { candles = sort_by earlier candles }
  ]

  -- `Number(value) || undefined`
  abbrev number_or_undefined : Option Json → Value N
  number_or_undefined j =
      let x = n.number j in
      if n.lt x (n.of_nat 0)
      then Value.num x
      else if n.lt (n.of_nat 0) x
      then Value.num x
      else undefined

  -- a message with data
  unfoldable pub receive :
      MarketBuffer N
      → Option (Candle N)
      → Option Json
      → Option Json
      → Json
      → MarketBuffer N × Option (Candle N)
  receive b last received channel rows =
      let first : Value N = json_value (at rows 0) in
      let b0 = put b "receivedAt" (json_value received) in
      let b1 = put b0 "exchangeAt" (number_or_undefined (first_property (at rows 0) "ts")) in
      let b2 = if is_channel channel "tickers" then put b1 "ticker" first else b1 in
      let b3 = if is_channel channel "books5" then put b2 "book" first else b2 in
      let b4 =
        if is_channel channel "trades"
        then elim (spread rows) [ some rows ↦ append_trades b3 rows | none ↦ b3 ]
        else b3 in
      (
        b4,
        if is_candle_channel channel
            then elim (parse_candle (get_or (at rows 0) Json.null)) [
              | some c ↦ some c
              | none ↦ last
            ]
            else last,
      )

  -- `socket.onmessage`, after its guard: `none` is a text that is no JSON
  unfoldable pub on_message :
      MarketBuffer N → Option (Candle N) → Option Json → MarketBuffer N × Option (Candle N)
  on_message b last none = (b, last)
  on_message b last (some envelope) =
      let payload = property_of envelope "payload" in
      let rows = property_of payload "data" in
      if is_null payload
      then (b, last)
      else if is_channel (property? payload "event") "error"
      then (put b "error" (json_value (property? payload "msg")), last)
      else if not (has_length rows)
      then (b, last)
      else receive b last (property? envelope "receivedAt")
          (first_property (property? payload "arg") "channel") rows
