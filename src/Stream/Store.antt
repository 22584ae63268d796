-- ===== src/Stream/Store.antt =====
-- packages/sdk-ts/src/streamStore.ts: `TerminalStreamStore` and `entityKey`.
-- A method returns the new store, the calls that it makes outside (the recovery callback, the
-- listeners), and the message of the error that it throws. The view timer is a flag: `notify_timer`
-- says that a callback is pending, and `fire` is that callback. A listener is a number. The published
-- `state` holds copies of the two maps, so no map is shared by two fields and values model them.
use Prim.Native.String.{◌++◌ as ◌+s◌}
use montlok_terminal.Prelude.{
  ℕ, ◌+◌, String, ◌≡◌, refl, ◌⊎◌, inl, inr, Bool, true, false, not, List, [], ◌∷◌, ◌++◌, Option,
  none, some, map, if◌then◌else◌, ltb, leb, ◌==◌, nat_eq, string_eq, get_or, length, any, filter,
}
use montlok_terminal.Prelude.Int.{ℤ, pos}
use montlok_terminal.JsMap.{get, has, set, delete, set_all}
use montlok_terminal.Stream.Protocol.{EventType, Payload, EventEnvelope, ResumePosition}

pub data StreamPhase : Type 0 where
  connecting snapshot live recovering disconnected : StreamPhase

pub record StreamState : Type 0 where
  pub version : ℕ
  pub phase : StreamPhase
  pub events : List (String × EventEnvelope)
  pub positions : List (String × ℕ)
  pub conflated : ℕ
  pub gaps : ℕ
  pub last_heartbeat_ns : ℤ

pub record StagedSnapshot : Type 0 where
  pub events : List (String × EventEnvelope)
  pub positions : List (String × ℕ)

pub record TerminalStreamStore : Type 0 where
  pub working : StreamState
  pub state : StreamState
  pub listeners : List ℕ
  pub critical_listeners : List ℕ
  pub snapshots : List (String × StagedSnapshot)
  pub notify_timer : Bool
  pub pending_market : List (String × EventEnvelope)
  pub notify_queued : Bool

pub data Call : Type 0 where
  recover : String → ℕ → Call
  notify : ℕ → Call
  critical : ℕ → EventEnvelope → Call

pub record Outcome : Type 0 where
  pub store : TerminalStreamStore
  pub calls : List Call
  pub thrown : Option String

-- What is not under src/: the Arrow reader, and the generated protobuf decoder over its reader.
-- Either may throw.
pub data Result (A : Type 0) : Type 0 where
  ok : A → Result A
  err : String → Result A

pub Result-cases :
    {A : Type 0} (r : Result A) → ((m : String) × (r ≡ err m)) ⊎ ((a : A) × (r ≡ ok a))
Result-cases (ok a) = inr (a, refl)
Result-cases (err m) = inl (m, refl)

pub record Table : Type 0 where
  pub num_rows : ℕ
  -- the column `payload_protobuf`, if there is one: the bytes of a row, `none` if they are no bytes
  pub payloads : Option (ℕ → Option (List ℕ))

pub record Codec : Type 0 where
  pub table_from_ipc : List ℕ → Result Table
  pub decode : List ℕ → Result EventEnvelope

-- The key of the current view that an event replaces.
unfoldable pub entity_key : EventEnvelope → String
entity_key e = elim e.payload [
  | some (Payload.market_quote _) ↦ e.stream +s "/quote/" +s e.instrument_id
  | some (Payload.order_book_updated _) ↦ e.stream +s "/book/" +s e.instrument_id
  | some (Payload.order_event o) ↦ e.stream +s "/order/" +s o.client_order_id
  | some (Payload.route_updated r) ↦ e.stream +s "/route/" +s r.route_id
  | some (Payload.fill_received f) ↦ e.stream +s "/fill/" +s f.trade_id
  | some (Payload.position_updated _) ↦ e.stream +s "/position/" +s e.instrument_id
  | some (Payload.pnl_updated _) ↦ e.stream +s "/pnl/" +s e.run_id +s "/" +s e.instrument_id
  | some (Payload.run_state_changed _) ↦ e.stream +s "/state/" +s e.run_id
  | some (Payload.alert_changed a) ↦ e.stream +s "/alert/" +s a.alert_id
  | some (Payload.operation_receipt_updated o) ↦ e.stream +s "/operation/" +s o.operation_id
  | _ ↦ e.stream +s "/" +s e.event_id
]

-- `positions.get(stream) ?? 0n`
abbrev pub position : List (String × ℕ) → String → ℕ
position positions stream = get_or (get positions stream) 0

abbrev empty_state : StreamState
empty_state = record {
  version = 0;
  phase = connecting;
  events = [];
  positions = [];
  conflated = 0;
  gaps = 0;
  last_heartbeat_ns = pos 0;
}

abbrev pub new_store : TerminalStreamStore
new_store = record {
  working = empty_state;
  state = empty_state;
  listeners = [];
  critical_listeners = [];
  snapshots = [];
  notify_timer = false;
  pending_market = [];
  notify_queued = false;
}

-- `update`, given `working` with the patch applied: one timer serves every change until it fires.
unfoldable pub update : TerminalStreamStore → StreamState → TerminalStreamStore
update s patched =
    if s.notify_queued
    then record s { working = patched }
    else record s { working = patched; notify_queued = true; notify_timer = true }

-- The callback of the timer: the pending quotes join the view, and the view is published.
unfoldable pub fire : TerminalStreamStore → Outcome
fire s =
    let shown = record (s.working) {
      events = set_all s.working.events s.pending_market;
      version = s.working.version + 1;
    } in
    record {
      store = record s {
        working = shown;
        state = shown;
        pending_market = [];
        notify_queued = false;
        notify_timer = false;
      };
      calls = map notify s.listeners;
      thrown = none;
    }

-- `Set.add` and `Set.delete` of `subscribe` and `onCritical`, and the functions that these return
abbrev add_listener : List ℕ → ℕ → List ℕ
add_listener ls l = if any (λ x. x == l) ls then ls else ls ++ l ∷ []

unfoldable pub subscribe : TerminalStreamStore → ℕ → TerminalStreamStore
subscribe s l = record s { listeners = add_listener s.listeners l }

unfoldable pub unsubscribe : TerminalStreamStore → ℕ → TerminalStreamStore
unsubscribe s l = record s { listeners = filter (λ x. not (x == l)) s.listeners }

unfoldable pub on_critical : TerminalStreamStore → ℕ → TerminalStreamStore
on_critical s l = record s { critical_listeners = add_listener s.critical_listeners l }

unfoldable pub off_critical : TerminalStreamStore → ℕ → TerminalStreamStore
off_critical s l = record s { critical_listeners = filter (λ x. not (x == l)) s.critical_listeners }

abbrev to_resume : String × ℕ → ResumePosition
to_resume (stream, seq) = record { stream = stream; last_stream_seq = seq }

unfoldable pub resume_positions : TerminalStreamStore → List ResumePosition
resume_positions s = map to_resume s.working.positions

unfoldable pub on_disconnected : TerminalStreamStore → TerminalStreamStore
on_disconnected s =
    update (record s { snapshots = []; pending_market = [] })
      (record (s.working) {
        events = set_all s.working.events s.pending_market;
        phase = disconnected;
      })

unfoldable pub on_connecting : TerminalStreamStore → TerminalStreamStore
on_connecting s = update s (record (s.working) { phase = connecting })

-- The timer is cleared and `notifyQueued` is not: a disposed store is never published again.
unfoldable pub dispose : TerminalStreamStore → TerminalStreamStore
dispose s = record s {
  notify_timer = false;
  listeners = [];
  critical_listeners = [];
  snapshots = [];
  pending_market = [];
}

abbrev pub is_market : EventType → Bool
is_market EventType.market_quote = true
is_market EventType.order_book_updated = true
is_market _ = false

abbrev pub done : TerminalStreamStore → List Call → Outcome
done s calls = record { store = s; calls = calls; thrown = none }

abbrev pub throws : TerminalStreamStore → String → Outcome
throws s message = record { store = s; calls = []; thrown = some message }

abbrev pub view_limit : ℕ
view_limit = 20000

-- `if(events.size>20_000)`: the oldest key is dropped
unfoldable pub trim : List (String × EventEnvelope) → List (String × EventEnvelope)
trim [] = []
trim ((k, e) ∷ m) =
    if ltb view_limit (length ((k, e) ∷ m)) then delete ((k, e) ∷ m) k else (k, e) ∷ m

-- an accepted quote or book waits for the timer, and replaces the one that waits under its key
unfoldable pub accept_market : TerminalStreamStore → EventEnvelope → Outcome
accept_market s e =
    let key = entity_key e in
    let replaced = has s.pending_market key in
    done
      (update (record s { pending_market = set s.pending_market key e })
        (record (s.working) {
          positions = set s.working.positions e.stream e.stream_seq;
          conflated = s.working.conflated + (if replaced then 1 else 0);
        }))
      []

unfoldable pub accept_critical : TerminalStreamStore → EventEnvelope → Outcome
accept_critical s e =
    done
      (update s (record (s.working) {
        positions = set s.working.positions e.stream e.stream_seq;
        events = trim (set s.working.events (entity_key e) e);
      }))
      (map (λ l. critical l e) s.critical_listeners)

unfoldable pub report_gap : TerminalStreamStore → String → Outcome
report_gap s stream =
    done (update s (record (s.working) { phase = recovering; gaps = s.working.gaps + 1 }))
      (recover stream (position s.working.positions stream) ∷ [])

unfoldable pub accept : TerminalStreamStore → EventEnvelope → Outcome
accept s e =
    let previous = position s.working.positions e.stream in
    if not (e.schema_version == 2)
    then throws s "事件版本不兼容"
    else if leb e.stream_seq previous
    then done s []
    else if not (e.stream_seq == previous + 1)
    then report_gap s e.stream
    else if is_market e.event_type
    then accept_market s e
    else accept_critical s e
