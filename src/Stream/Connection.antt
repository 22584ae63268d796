-- ===== src/Stream/Connection.antt =====
-- packages/sdk-ts/src/client.ts: the states that a client goes through, and its retries.
use montlok_terminal.Prelude.{
  ℕ, String, ◌≡◌, ◌⊎◌, inl, inr, Bool, true, false, List, [], ◌∷◌, Option, none, some, arith,
  if◌then◌else◌, ◌==◌, nat_eq, includes, Option-cases, Bool-cases,
}
use montlok_terminal.Stream.Protocol.{TerminalContext}
use montlok_terminal.Stream.Store.{
  TerminalStreamStore, Call, recover, notify, critical, Outcome, Result-cases, fire,
}
use montlok_terminal.Stream.Ingest.{ingest}
use montlok_terminal.Stream.Client.{
  TerminalClient, Done, Event, without, ClientCodec, close_id, close_current, start_timer, send,
  subscribe_topics, connect, start, set_context, clear_retry, stop, dispose_client, reconnect,
  on_open, perform, ingest_outcome, on_message, on_close, on_socket_error, step,
}

-- Stopped: no timer is pending and no socket is alive.
abbrev pub IsStopped : TerminalClient → Type 0
IsStopped c =
    (c.stopped ≡ true) × (c.timers ≡ []) × (c.connecting_sockets ≡ []) × (c.open_sockets ≡ [])

-- Attached to one socket, which is connecting, open, or closing: no other is alive, no timer pending.
abbrev pub IsAttached : TerminalClient → ℕ → Type 0
IsAttached c n =
    (c.stopped ≡ false)
    × (c.socket ≡ some n)
    × (c.timers ≡ [])
    × (((c.connecting_sockets ≡ n ∷ []) × (c.open_sockets ≡ []))
        ⊎ ((c.connecting_sockets ≡ []) × (c.open_sockets ≡ n ∷ []))
        ⊎ ((c.connecting_sockets ≡ []) × (c.open_sockets ≡ [])))

-- Waiting for the one pending timer, which will connect: no socket is alive.
abbrev pub IsWaiting : TerminalClient → ℕ → Type 0
IsWaiting c t =
    (c.stopped ≡ false)
    × (c.socket ≡ none)
    × (c.retry ≡ some t)
    × (c.timers ≡ t ∷ [])
    × (c.connecting_sockets ≡ [])
    × (c.open_sockets ≡ [])

pub data IsSteady (c : TerminalClient) : Type 0 where
  idle : IsStopped c → IsSteady c
  attached : (n : ℕ) → IsAttached c n → IsSteady c
  waiting : (t : ℕ) → IsWaiting c t → IsSteady c

reconnect-IsSteady : (c : TerminalClient) → IsSteady c → IsSteady (reconnect c).0
unfolding reconnect close_id
reconnect-IsSteady c (idle h) = idle (ground (arith, h))
reconnect-IsSteady c (attached n h) = attached n (ground (arith, h))
reconnect-IsSteady c (waiting t h) = waiting t (ground (arith, h))

if-IsSteady :
    (b : Bool) (d e : Done) → IsSteady d.0 → IsSteady e.0 → IsSteady (if b then d else e).0
if-IsSteady true d e p q = p
if-IsSteady false d e p q = q

perform-IsSteady :
    (c : TerminalClient) (calls : List Call) → IsSteady c → IsSteady (perform c calls).0
unfolding perform
perform-IsSteady c [] h = h
perform-IsSteady c (recover stream after ∷ calls) h =
    perform-IsSteady (reconnect c).0 calls (reconnect-IsSteady c h)
perform-IsSteady c (notify l ∷ calls) h = perform-IsSteady c calls h
perform-IsSteady c (critical l e ∷ calls) h = perform-IsSteady c calls h

-- The store is no part of the connection's state.
store-IsSteady :
    (c : TerminalClient) (s : TerminalStreamStore) → IsSteady c → IsSteady (record c { store = s })
store-IsSteady c s (idle h) = idle h
store-IsSteady c s (attached n h) = attached n h
store-IsSteady c s (waiting t h) = waiting t h

ingest_outcome-IsSteady :
    (c : TerminalClient) (o : Outcome) → IsSteady c → IsSteady (ingest_outcome c o).0
unfolding ingest_outcome
ingest_outcome-IsSteady c o h =
    let h' = perform-IsSteady _ o.calls (store-IsSteady c o.store h) in
    elim (Option-cases o.thrown) [
      | inl q ↦ rw (q, ingest_outcome) h'
      | inr (message, q) ↦ rw (q, ingest_outcome) (reconnect-IsSteady _ h')
    ]

on_message-IsSteady :
    (codec : ClientCodec) (c : TerminalClient) (n : ℕ) (bytes : Option (List ℕ))
    → IsSteady c
    → IsSteady (on_message codec c n bytes).0
unfolding on_message
on_message-IsSteady codec c n none h = if-IsSteady _ _ _ h (reconnect-IsSteady c h)
on_message-IsSteady codec c n (some raw) h = elim (Result-cases (codec.decode_message raw)) [
  | inl (message, q) ↦ rw q (if-IsSteady _ _ _ h (reconnect-IsSteady c h))
  | inr (m, q) ↦
      rw q (if-IsSteady _ _ _ h (ingest_outcome-IsSteady c (ingest codec.codec c.store m) h))
]

connect-IsSteady :
    (c : TerminalClient)
    → c.timers ≡ []
    → c.connecting_sockets ≡ []
    → c.open_sockets ≡ []
    → IsSteady (connect c).0
unfolding connect
connect-IsSteady c a b d = elim (Bool-cases c.stopped) [
  | inl q ↦ idle (ground arith)
  | inr q ↦ attached c.next_id (ground arith)
]

stop-IsSteady : (c : TerminalClient) → IsSteady c → IsStopped (stop c).0
unfolding stop clear_retry close_current close_id
stop-IsSteady c (idle h) = ground (arith, h)
stop-IsSteady c (attached n h) = ground (arith, h)
stop-IsSteady c (waiting t h) = ground (arith, h)

on_close-IsSteady :
    (c : TerminalClient) (n jitter : ℕ)
    → IsSteady c
    → IsSteady
        (on_close
          (record c {
            connecting_sockets = without n c.connecting_sockets;
            open_sockets = without n c.open_sockets;
          })
          n
          jitter).0
unfolding on_close start_timer
on_close-IsSteady c n jitter (idle h) = idle (ground (arith, h))
on_close-IsSteady c n jitter (attached m h) = elim (Bool-cases (m == n)) [
  | inl q ↦ waiting c.next_id (ground (arith, h))
  | inr q ↦ attached m (ground (arith, h))
]
on_close-IsSteady c n jitter (waiting t h) = waiting t (ground (arith, h))

on_open-IsSteady :
    (c : TerminalClient) (n : ℕ) (uuid : String)
    → IsSteady c
    → includes c.connecting_sockets n ≡ true
    → IsSteady
        (on_open
          (record c {
            connecting_sockets = without n c.connecting_sockets;
            open_sockets = n ∷ c.open_sockets;
          })
          n
          uuid).0
unfolding on_open send subscribe_topics close_id
on_open-IsSteady c n uuid (idle h) g = absurd (ground (arith, h))
on_open-IsSteady c n uuid (attached m h) g = attached m (ground (arith, h))
on_open-IsSteady c n uuid (waiting t h) g = absurd (ground (arith, h))

set_context-IsSteady :
    (c : TerminalClient) (context : TerminalContext) (uuid : String)
    → IsSteady c
    → IsSteady (set_context c context uuid).0
unfolding set_context send subscribe_topics
set_context-IsSteady c context uuid (idle h) = idle (ground (arith, h))
set_context-IsSteady c context uuid (attached m h) = attached m (ground (arith, h))
set_context-IsSteady c context uuid (waiting t h) = waiting t (ground (arith, h))

retry-IsSteady :
    (c : TerminalClient) (t : ℕ)
    → IsSteady c
    → includes c.timers t ≡ true
    → IsSteady (connect (record c { timers = without t c.timers })).0
retry-IsSteady c t (idle h) g = absurd (ground (arith, h))
retry-IsSteady c t (attached m h) g = absurd (ground (arith, h))
retry-IsSteady c t (waiting t' h) g =
    connect-IsSteady _ (ground (arith, h)) (ground (arith, h)) (ground (arith, h))

-- `start` is called on a stopped client, as its one caller does: its effect's cleanup calls `stop`.
abbrev pub IsPermitted : TerminalClient → Event → Type 0
IsPermitted c (Event.started context topics) = c.stopped ≡ true
IsPermitted c _ = Unit

started-IsSteady :
    (c : TerminalClient) (context : TerminalContext) (topics : List String)
    → IsSteady c
    → c.stopped ≡ true
    → IsSteady (start c context topics).0
unfolding start
started-IsSteady c context topics (idle h) g = connect-IsSteady _ h.1 h.2 h.3
started-IsSteady c context topics (attached m h) g = absurd (ground (arith, h))
started-IsSteady c context topics (waiting t h) g = absurd (ground (arith, h))

pub step-IsSteady :
    (codec : ClientCodec) (c : TerminalClient) (e : Event)
    → IsSteady c
    → IsPermitted c e
    → IsSteady (step codec c e).0
unfolding step dispose_client on_socket_error
step-IsSteady codec c (Event.started context topics) h g = started-IsSteady c context topics h g
step-IsSteady codec c (Event.context_set context uuid) h g = set_context-IsSteady c context uuid h
step-IsSteady codec c Event.stops h g = idle (stop-IsSteady c h)
step-IsSteady codec c Event.disposed h g = idle (stop-IsSteady c h)
step-IsSteady codec c (Event.opened n uuid) h g =
    elim (Bool-cases (includes c.connecting_sockets n)) [
      | inl q ↦ rw q (on_open-IsSteady c n uuid h q)
      | inr q ↦ rw q h
    ]
step-IsSteady codec c (Event.received n bytes) h g =
    if-IsSteady _ _ _ (on_message-IsSteady codec c n bytes h) h
step-IsSteady codec c (Event.closed n jitter) h g = on_close-IsSteady c n jitter h
step-IsSteady codec c (Event.failed n) h g = h
step-IsSteady codec c (Event.retry_due t) h g = elim (Bool-cases (includes c.timers t)) [
  | inl q ↦ rw q (retry-IsSteady c t h q)
  | inr q ↦ rw q h
]
step-IsSteady codec c Event.view_due h g =
    if-IsSteady _ _ _ (perform-IsSteady _ (fire c.store).calls (store-IsSteady c _ h)) h

-- The events that follow one another, each permitted where it happens.
pub run : ClientCodec → TerminalClient → List Event → TerminalClient
run codec c [] = c
run codec c (e ∷ es) = run codec (step codec c e).0 es

abbrev pub ArePermitted : ClientCodec → TerminalClient → List Event → Type 0
ArePermitted codec c [] = Unit
ArePermitted codec c (e ∷ es) = IsPermitted c e × ArePermitted codec (step codec c e).0 es

-- Whatever happens to a client that is started only while it is stopped, in whatever order, it is
-- always in one of three states: stopped, with no timer pending and no socket alive; attached to one
-- socket, with no other alive and no timer pending; or waiting for exactly one timer, with no socket.
pub run-IsSteady :
    (codec : ClientCodec) (c : TerminalClient) (es : List Event)
    → IsSteady c
    → ArePermitted codec c es
    → IsSteady (run codec c es)
unfolding run
run-IsSteady codec c [] h g = h
run-IsSteady codec c (e ∷ es) h g =
    run-IsSteady codec (step codec c e).0 es (step-IsSteady codec c e h g.0) g.1
