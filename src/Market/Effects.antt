-- ===== src/Market/Effects.antt =====
-- apps/web/src/operator/useMarket.ts: the effect of `useMarket`, which React starts anew whenever the
-- instrument, the bar or the mode changes, after the clean-up of the one before. What an effect has
-- asked for can arrive when a later effect runs.
use montlok_terminal.Prelude.{
  ℕ, suc, String, Bool, true, false, not, ◌||◌, ◌&&◌, List, [], ◌∷◌, Option, none, some,
  if◌then◌else◌, ◌==◌, string_eq, nat_eq, filter, includes, ◌-◌,
}
use montlok_terminal.Prelude.Numbers.{Numbers}
use montlok_terminal.JsMap.{get, set, set_all}
use montlok_terminal.Json.{Json}
use montlok_terminal.Market.Buffer.{Value, MarketBuffer, new_buffer, drain}
use montlok_terminal.Market.Hook.{
  Candle, Shown, empty_shown, show_definition, show_snapshot, bootstrap_trades, show_error,
  show_candles, on_message,
}

-- The variables of one run of the effect. `timers` are the pending ones, `opened` counts the sockets,
-- `closing` are those that were asked to close, and `connects` counts the calls of `connect` that wait
-- for the session.
pub record Effect (N : Type 0) : Type 0 where
  pub instrument : String
  pub disposed : Bool
  pub suspended : Bool
  pub buffer : MarketBuffer N
  pub last_candle : Option (Candle N)
  pub connects : ℕ
  pub opened : ℕ
  pub closing : List ℕ
  pub socket : Option ℕ
  pub reconnect : Option ℕ
  pub timers : List ℕ
  pub started : ℕ

-- What the effect waits for.
pub data Arrival : Type 0 where
  definition : Json → Arrival
  snapshot : List (String × Json) → Arrival
  candles : List Json → Arrival
  candles_failed : String → Arrival
  session_ready : Arrival
  connect_failed : String → Arrival
  socket_open : Arrival
  message : Option Json → Arrival
  socket_closed : Arrival
  reconnects : ℕ → Arrival
  flushes : Arrival
  hides : Arrival
  shows : Bool → Arrival

pub data Event : Type 0 where
  changed : String → Event
  unmounted : Event
  -- what the effect of a generation waits for
  arrives : ℕ → Arrival → Event

pub record Hook (N : Type 0) : Type 0 where
  pub shown : Shown N
  pub generation : ℕ
  pub effects : List (ℕ × Effect N)

abbrev pub new_hook : {N : Type 0} → Hook N
new_hook = record { shown = empty_shown; generation = 0; effects = [] }

abbrev pub new_effect : {N : Type 0} → String → Effect N
new_effect instrument = record {
  instrument = instrument;
  disposed = false;
  suspended = false;
  buffer = new_buffer;
  last_candle = none;
  connects = 1;
  opened = 0;
  closing = [];
  socket = none;
  reconnect = none;
  timers = [];
  started = 0;
}

abbrev close_socket : Option ℕ → List ℕ → List ℕ
close_socket none closing = closing
close_socket (some socket) closing = socket ∷ closing

abbrev pub without : Option ℕ → List ℕ → List ℕ
without none ts = ts
without (some t) ts = filter (λ u. not (u == t)) ts

module _ {N : Type 0} where
  -- the function that the effect returns
  unfoldable pub clean_up : Effect N → Effect N
  clean_up e = record e {
    disposed = true;
    closing = close_socket e.socket e.closing;
    timers = without e.reconnect e.timers;
  }

  -- `connect`, from its `await` on
  unfoldable pub connected : Effect N → Effect N
  connected e =
      let e' = record e { connects = e.connects - 1 } in
      if e.connects == 0
      then e
      else if e.disposed || e.suspended
      then e'
      else record e' { opened = suc e.opened; socket = some e.opened }

  abbrev set_connected : Shown N → Bool → Shown N
  set_connected s b = record s {
    state = set_all s.state (("connected", Value.json (Json.bool b)) ∷ []);
  }

  unfoldable pub on_close : Effect N → Shown N → Effect N × Shown N
  on_close e s = if e.disposed || e.suspended then (e, s) else (
    record e { reconnect = some e.started; timers = e.started ∷ e.timers; started = suc e.started },
    set_connected s false,
  )

  -- the interval of 50 ms
  unfoldable pub flush : Effect N → Shown N → Effect N × Shown N
  flush e s =
      let drained = drain e.buffer in
      let s' : Shown N = elim drained.1 [
        | none ↦ s
        | some batch ↦ record s { state = set_all s.state batch }
      ] in
      elim e.last_candle [
        | none ↦ (record e { buffer = drained.0 }, s')
        | some c ↦
            (record e { buffer = drained.0; last_candle = none }, record s' { candle = some c })
      ]

  unfoldable pub hide : Effect N → Effect N
  hide e = record e {
    suspended = true;
    closing = close_socket e.socket e.closing;
    timers = without e.reconnect e.timers;
  }

  unfoldable pub cleaned : Hook N → List (ℕ × Effect N)
  cleaned h = elim (get h.effects h.generation) [
    | none ↦ h.effects
    | some e ↦ set h.effects h.generation (clean_up e)
  ]

module _ {N : Type 0} ⦃n : Numbers N⦄ where
  -- One arrival; `own` is the effect's generation, `current` the hook's. The clean-up has removed the
  -- interval and both listeners.
  unfoldable pub arrive : ℕ → ℕ → Effect N → Shown N → Arrival → Effect N × Shown N
  arrive own current e s (definition rows) =
      if e.disposed || not (own == current)
      then (e, s)
      else (e, show_definition s rows e.instrument)
  arrive own current e s (snapshot fields) =
      if e.disposed || not (own == current)
      then (e, s)
      else (record e { buffer = bootstrap_trades e.buffer fields }, show_snapshot s fields)
  arrive own current e s (candles rows) =
      if own == current && not e.disposed then (e, show_candles s rows) else (e, s)
  arrive own current e s (candles_failed error) =
      if e.disposed then (e, s) else (e, show_error s error)
  arrive own current e s session_ready = (connected e, s)
  arrive own current e s (connect_failed error) =
      if e.disposed then (e, s) else (e, show_error s error)
  arrive own current e s socket_open =
      if e.disposed then (e, s) else (e, show_error (set_connected s true) "")
  arrive own current e s (message envelope) =
      if e.disposed || e.suspended
      then (e, s)
      else let got = on_message e.buffer e.last_candle envelope in
        (record e { buffer = got.0; last_candle = got.1 }, s)
  arrive own current e s socket_closed = on_close e s
  arrive own current e s (reconnects t) =
      if includes e.timers t
      then (record e { timers = without (some t) e.timers; connects = suc e.connects }, s)
      else (e, s)
  arrive own current e s flushes = if e.disposed then (e, s) else flush e s
  arrive own current e s hides = if e.disposed then (e, s) else (hide e, s)
  arrive own current e s (shows persisted) =
      if e.disposed || not persisted
      then (e, s)
      else (record e { suspended = false; connects = suc e.connects }, s)

  unfoldable pub step : Hook N → Event → Hook N
  step h (changed instrument) =
      let generation = suc h.generation in
      record {
        shown = empty_shown;
        generation = generation;
        effects =
            if instrument == ""
            then cleaned h
            else set (cleaned h) generation (new_effect instrument);
      }
  step h unmounted = record h { effects = cleaned h }
  step h (arrives own a) = elim (get h.effects own) [
    | none ↦ h
    | some e ↦
        let r = arrive own h.generation e h.shown a in
        record h { shown = r.1; effects = set h.effects own r.0 }
  ]

  unfoldable pub run : Hook N → List Event → Hook N
  run h [] = h
  run h (e ∷ es) = run (step h e) es
