-- ===== src/Stream/Client.antt =====
-- packages/sdk-ts/src/client.ts: `TerminalClient`, the connection that feeds the store.
-- A method returns the new client and its effects in order. The browser is part of the state: the
-- sockets that are connecting or open, and the timers that are pending, each named by a number; a
-- closing or closed socket is in neither list. A socket's event reaches its handler by `step`.
-- The handle `retry` stays set when its timer fires or is cleared, as in the source. `context` and
-- `topics` are given in full (`fromPartial` is generated code), and so are the random values.
use montlok_terminal.Prelude.{
  ℕ, ◌+◌, ◌*◌, ◌^◌, String, Bool, true, false, not, ◌&&◌, ◌||◌, List, [], ◌∷◌, ◌++◌, Option, none,
  some, min, if◌then◌else◌, ◌==◌, nat_eq, includes, filter, is_some,
}
use montlok_terminal.Stream.Protocol.{TerminalContext, ClientHello, Subscribe, ServerMessage}
use montlok_terminal.Stream.Store.{
  TerminalStreamStore, Call, recover, notify, critical, Codec, Outcome, Result, ok, err,
  resume_positions, on_connecting, on_disconnected, dispose, fire,
}
use montlok_terminal.Stream.Ingest.{ingest}

pub data ClientMessage : Type 0 where
  hello : ClientHello → ClientMessage
  subscribe : Subscribe → ClientMessage

pub data Effect : Type 0 where
  open_socket : ℕ → Effect
  close_socket : ℕ → Effect
  send_message : ℕ → ClientMessage → Effect
  set_timeout : ℕ → ℕ → Effect
  clear_timeout : ℕ → Effect
  report_error : String → Effect
  outside : Call → Effect

pub record TerminalClient : Type 0 where
  pub store : TerminalStreamStore
  pub socket : Option ℕ
  pub retry : Option ℕ
  pub stopped : Bool
  pub retries : ℕ
  pub context : TerminalContext
  pub topics : List String
  pub subscription_id : String
  -- the browser
  pub connecting_sockets : List ℕ
  pub open_sockets : List ℕ
  pub timers : List ℕ
  pub next_id : ℕ

abbrev pub Done : Type 0
Done = TerminalClient × List Effect

infixl 5 ◌then_do◌
-- One method call after another.
abbrev pub ◌then_do◌ : Done → (TerminalClient → Done) → Done
◌then_do◌ d f = let (c', later) = f d.0 in (c', d.1 ++ later)

abbrev pub without : ℕ → List ℕ → List ℕ
without n = filter (λ x. not (x == n))

abbrev pub is_current : Option ℕ → ℕ → Bool
is_current none n = false
is_current (some m) n = m == n

unfoldable pub close_id : TerminalClient → ℕ → Done
close_id c n = (
  record c {
    connecting_sockets = without n c.connecting_sockets;
    open_sockets = without n c.open_sockets;
  },
  close_socket n ∷ [],
)

unfoldable pub close_current : TerminalClient → Done
close_current c = elim c.socket [ none ↦ (c, []) | some n ↦ close_id c n ]

unfoldable pub start_timer : TerminalClient → ℕ → Done
start_timer c delay = (
  record c { retry = some c.next_id; timers = c.next_id ∷ c.timers; next_id = c.next_id + 1 },
  set_timeout c.next_id delay ∷ [],
)

-- `send`: only over a socket that is open
unfoldable pub send : TerminalClient → ClientMessage → Done
send c m = elim c.socket [
  | none ↦ (c, [])
  | some n ↦ if includes c.open_sockets n then (c, send_message n m ∷ []) else (c, [])
]

unfoldable pub subscribe_topics : TerminalClient → String → Done
subscribe_topics c uuid =
    send (record c { subscription_id = uuid })
      (subscribe (record {
        request_id = uuid;
        topics = c.topics;
        context = some c.context;
        fields = [];
        conflate_ms = 50;
      }))

unfoldable pub connect : TerminalClient → Done
connect c = if c.stopped then (record c { retry = none }, []) else (
  record c {
    retry = none;
    store = on_connecting c.store;
    socket = some c.next_id;
    connecting_sockets = c.next_id ∷ c.connecting_sockets;
    next_id = c.next_id + 1;
  },
  open_socket c.next_id ∷ [],
)

unfoldable pub start : TerminalClient → TerminalContext → List String → Done
start c context topics = connect (record c { context = context; topics = topics; stopped = false })

unfoldable pub set_context : TerminalClient → TerminalContext → String → Done
set_context c context uuid =
    let c' = record c { context = context } in
    elim c.socket [
      | none ↦ (c', [])
      | some n ↦ if includes c.open_sockets n then subscribe_topics c' uuid else (c', [])
    ]

unfoldable pub clear_retry : TerminalClient → Done
clear_retry c = elim c.retry [
  | none ↦ (c, [])
  | some t ↦ (record c { timers = without t c.timers }, clear_timeout t ∷ [])
]

unfoldable pub stop : TerminalClient → Done
stop c = clear_retry (record c { stopped = true }) then_do close_current then_do λ c'.
    (record c' { store = on_disconnected c'.store }, [])

unfoldable pub dispose_client : TerminalClient → Done
dispose_client c = stop c then_do λ c'. (record c' { store = dispose c'.store }, [])

unfoldable pub reconnect : TerminalClient → Done
reconnect c = elim c.socket [
  | some n ↦ close_id c n
  | none ↦ if not c.stopped && not (is_some c.retry) then start_timer c 250 else (c, [])
]

unfoldable pub on_open : TerminalClient → ℕ → String → Done
on_open c n uuid =
    if not (is_current c.socket n) || c.stopped
    then close_id c n
    else send (record c { retries = 0 })
        (hello (record {
          protocol_version = 2;
          device_id = "web";
          resume_positions = resume_positions c.store;
        }))
      then_do λ c'. subscribe_topics c' uuid

-- The calls that the store makes: its recovery callback is `reconnect`, the rest goes outside.
unfoldable pub perform : TerminalClient → List Call → Done
perform c [] = (c, [])
perform c (recover stream after ∷ calls) = reconnect c then_do λ c'. perform c' calls
perform c (notify l ∷ calls) = (c, outside (notify l) ∷ []) then_do λ c'. perform c' calls
perform c (critical l e ∷ calls) = (c, outside (critical l e) ∷ []) then_do λ c'. perform c' calls

-- What is not under src/: the Arrow reader and the generated decoders.
pub record ClientCodec : Type 0 where
  pub codec : Codec
  pub decode_message : List ℕ → Result ServerMessage

abbrev pub fail : TerminalClient → String → Done
fail c message = (c, report_error message ∷ []) then_do reconnect

unfoldable pub ingest_outcome : TerminalClient → Outcome → Done
ingest_outcome c o = perform (record c { store = o.store }) o.calls then_do λ c'. elim o.thrown [
  | none ↦ (c', [])
  | some message ↦ fail c' message
]

-- `data` is `none` where the frame is no `ArrayBuffer`
unfoldable pub on_message : ClientCodec → TerminalClient → ℕ → Option (List ℕ) → Done
on_message codec c n bytes = if not (is_current c.socket n) then (c, []) else elim bytes [
  | none ↦ fail c "实时消息格式错误"
  | some raw ↦ elim (codec.decode_message raw) [
    | err message ↦ fail c message
    | ok m ↦ ingest_outcome c (ingest codec.codec c.store m)
  ]
]

-- `Math.min(10_000, 250*2**this.retries++)`
unfoldable pub backoff : ℕ → ℕ
backoff retries = min 10000 (250 * 2 ^ retries)

-- `jitter` is the whole part of `Math.random()*200`: a timer's delay is cut to whole milliseconds
unfoldable pub on_close : TerminalClient → ℕ → ℕ → Done
on_close c n jitter =
    if not (is_current c.socket n)
    then (c, [])
    else let c' = record c { socket = none; store = on_disconnected c.store } in
      if c.stopped
      then (c', [])
      else start_timer (record c' { retries = c.retries + 1 }) (backoff c.retries + jitter)

unfoldable pub on_socket_error : TerminalClient → ℕ → Done
on_socket_error c n = (c, report_error "事件流连接正在恢复" ∷ [])

abbrev pub new_client : TerminalStreamStore → TerminalContext → TerminalClient
new_client store context = record {
  store = store;
  socket = none;
  retry = none;
  stopped = true;
  retries = 0;
  context = context;
  topics = "*" ∷ [];
  subscription_id = "";
  connecting_sockets = [];
  open_sockets = [];
  timers = [];
  next_id = 0;
}

pub data Event : Type 0 where
  started : TerminalContext → List String → Event
  context_set : TerminalContext → String → Event
  stops : Event
  disposed : Event
  opened : ℕ → String → Event
  received : ℕ → Option (List ℕ) → Event
  closed : ℕ → ℕ → Event
  failed : ℕ → Event
  retry_due : ℕ → Event
  view_due : Event

-- One event: a call of the application, or one of the browser. A socket opens only while it is
-- connecting and speaks only while it is open; a timer fires only while it is pending.
unfoldable pub step : ClientCodec → TerminalClient → Event → Done
step codec c (started context topics) = start c context topics
step codec c (context_set context uuid) = set_context c context uuid
step codec c stops = stop c
step codec c disposed = dispose_client c
step codec c (opened n uuid) =
    if includes c.connecting_sockets n
    then on_open
        (record c {
          connecting_sockets = without n c.connecting_sockets;
          open_sockets = n ∷ c.open_sockets;
        })
        n uuid
    else (c, [])
step codec c (received n bytes) =
    if includes c.open_sockets n then on_message codec c n bytes else (c, [])
step codec c (closed n jitter) =
    on_close
      (record c {
        connecting_sockets = without n c.connecting_sockets;
        open_sockets = without n c.open_sockets;
      })
      n jitter
step codec c (failed n) = on_socket_error c n
step codec c (retry_due t) =
    if includes c.timers t then connect (record c { timers = without t c.timers }) else (c, [])
step codec c view_due =
    if c.store.notify_timer
    then (let o = fire c.store in perform (record c { store = o.store }) o.calls)
    else (c, [])
