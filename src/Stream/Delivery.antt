-- ===== src/Stream/Delivery.antt =====
-- packages/sdk-ts/src/streamStore.ts: what a critical listener is called with, message by message.
use montlok_terminal.Prelude.{
  ℕ, suc, String, ◌≡◌, refl, ◌⊎◌, inl, inr, Bool, not, Option-cases, true, false, ◌&&◌, List, [],
  ◌∷◌, Option, none, some, map, arith, if◌then◌else◌, ◌==◌, string_eq, nat_eq, includes, Distinct,
}
use montlok_terminal.JsMap.{get, get-set}
use montlok_terminal.Stream.Protocol.{
  EventEnvelope, Message, ServerMessage, SnapshotBatch, SnapshotEnd,
}
use montlok_terminal.Stream.Store.{
  TerminalStreamStore, Call, recover, notify, critical, Codec, position, is_market, accept,
  accept_market, accept_critical, report_gap, update, Outcome, StagedSnapshot, Table, fire,
  on_connecting, on_disconnected,
}
use montlok_terminal.Stream.Runs.{Input, received, timer, opening, closed, step}
use montlok_terminal.Stream.Ingest.{
  ingest, ingest_message, begin_snapshot, batch_snapshot, end_snapshot, is_inconsistent,
  watermark_map, on_error, on_sequence_gap, stage_table, batch_snapshot,
}

-- The sequence numbers of one stream that one listener has been called with, in order.
abbrev pub deliveries : ℕ → String → List Call → List ℕ
deliveries l stream [] = []
deliveries l stream (critical l' e ∷ calls) =
    if l' == l && e.stream == stream
    then e.stream_seq ∷ deliveries l stream calls
    else deliveries l stream calls
deliveries l stream (recover _ _ ∷ calls) = deliveries l stream calls
deliveries l stream (notify _ ∷ calls) = deliveries l stream calls

fan_out-absent :
    (l : ℕ) (stream : String) (e : EventEnvelope) (ls : List ℕ)
    → includes ls l ≡ false
    → deliveries l stream (map (λ l'. critical l' e) ls) ≡ []
fan_out-absent l stream e [] h = refl
fan_out-absent l stream e (l' ∷ ls) h = ground (arith, fan_out-absent l stream e ls)

fan_out-other :
    (l : ℕ) (stream : String) (e : EventEnvelope) (ls : List ℕ)
    → (e.stream == stream) ≡ false
    → deliveries l stream (map (λ l'. critical l' e) ls) ≡ []
fan_out-other l stream e [] h = refl
fan_out-other l stream e (l' ∷ ls) h = ground (arith, fan_out-other l stream e ls h)

-- A listener that is subscribed once is called once.
fan_out-present :
    (l : ℕ) (stream : String) (e : EventEnvelope) (ls : List ℕ)
    → Distinct ls
    → includes ls l ≡ true
    → (e.stream == stream) ≡ true
    → deliveries l stream (map (λ l'. critical l' e) ls) ≡ e.stream_seq ∷ []
fan_out-present l stream e [] d m h = absurd (ground arith)
fan_out-present l stream e (l' ∷ ls) d m h =
    ground (arith, fan_out-present l stream e ls d.1, fan_out-absent l stream e ls)

notify-deliveries :
    (l : ℕ) (stream : String) (ls : List ℕ) → deliveries l stream (map notify ls) ≡ []
notify-deliveries l stream [] = refl
notify-deliveries l stream (l' ∷ ls) = notify-deliveries l stream ls

-- What one message does to one stream, seen from one listener: nothing, or the next sequence number
-- is reached. A critical event is then handed over at once; a quote is not.
abbrev pub Next : TerminalStreamStore → Outcome → ℕ → String → Bool → Type 0
Next s o l stream market =
    (position o.store.working.positions stream ≡ suc (position s.working.positions stream))
    × (deliveries l stream o.calls
        ≡ (if market then [] else suc (position s.working.positions stream) ∷ []))

abbrev pub Quiet : TerminalStreamStore → Outcome → ℕ → String → Type 0
Quiet s o l stream =
    (position o.store.working.positions stream ≡ position s.working.positions stream)
    × (deliveries l stream o.calls ≡ [])

module _ (s : TerminalStreamStore) (l : ℕ) (stream : String) (d : Distinct s.critical_listeners)
    (m : includes s.critical_listeners l ≡ true) where
  accept-Next :
      (e : EventEnvelope)
      → Quiet s (accept s e) l stream
        ⊎ ((e.stream ≡ stream) × Next s (accept s e) l stream (is_market e.event_type))
  unfolding accept accept_market accept_critical report_gap update
  accept-Next e = ground (
    arith,
    get-set s.working.positions e.stream e.stream_seq stream,
    string_eq.beq_iff e.stream stream,
    fan_out-other l stream e s.critical_listeners,
    fan_out-present l stream e s.critical_listeners d m,
  )

-- The end of a transfer that is staged here, with the watermarks of its positions: it commits the
-- snapshot, which puts other positions in place. The end of a replay and an end that is refused do not.
abbrev ends_transfer : TerminalStreamStore → SnapshotEnd → Bool
ends_transfer s b = elim (get s.snapshots b.subscription_id) [
  | some staged ↦ not (is_inconsistent staged.positions (watermark_map b.watermarks))
  | none ↦ false
]

abbrev is_commit : TerminalStreamStore → ServerMessage → Bool
is_commit s m = elim m.message [ some (Message.snapshot_end b) ↦ ends_transfer s b | _ ↦ false ]

-- A quote or book of the stream: it is shown by the timer, and not handed to critical listeners.
abbrev is_quote : String → ServerMessage → Bool
is_quote stream m = elim m.message [
  | some (Message.event e) ↦ e.stream == stream && is_market e.event_type
  | _ ↦ false
]

abbrev pub commits : TerminalStreamStore → Input → Bool
commits s (received m) = is_commit s m
commits s _ = false

abbrev pub quotes : String → Input → Bool
quotes stream (received m) = is_quote stream m
quotes stream _ = false

stage_table-quiet :
    (codec : Codec) (s : TerminalStreamStore) (b : SnapshotBatch) (staged : StagedSnapshot)
    (t : Table)
    → ((stage_table codec s b staged t).store.working ≡ s.working)
      × ((stage_table codec s b staged t).calls ≡ [])
unfolding stage_table
stage_table-quiet codec s b staged t = ground arith

batch-quiet :
    (codec : Codec) (s : TerminalStreamStore) (b : SnapshotBatch)
    → ((batch_snapshot codec s b).store.working ≡ s.working)
      × ((batch_snapshot codec s b).calls ≡ [])
unfolding batch_snapshot
batch-quiet codec s b = grind (arith, stage_table-quiet)

-- An end that commits nothing leaves the positions as they are.
end-quiet :
    (s : TerminalStreamStore) (b : SnapshotEnd)
    → ends_transfer s b ≡ false
    → ((end_snapshot s b).store.working.positions ≡ s.working.positions)
      × ((end_snapshot s b).calls ≡ [])
unfolding end_snapshot update
end-quiet s b h = elim (Option-cases (get s.snapshots b.subscription_id)) [
  | inl q ↦ ground (arith, q)
  | inr (staged, q) ↦ ground (arith, h, q)
]

module _ (codec : Codec) (s : TerminalStreamStore) (l : ℕ) (stream : String)
    (d : Distinct s.critical_listeners) (m : includes s.critical_listeners l ≡ true) where
  received-Next :
      (x : Option Message)
      → is_commit s (record { message = x }) ≡ false
      → Quiet s (ingest codec s (record { message = x })) l stream
        ⊎ Next s
            (ingest codec s (record { message = x }))
            l
            stream
            (is_quote stream (record { message = x }))
  unfolding ingest ingest_message begin_snapshot on_error on_sequence_gap update
  received-Next none h = inl (refl, refl)
  received-Next (some (Message.snapshot_begin b)) h = ground arith
  received-Next (some (Message.snapshot_batch b)) h = ground (arith, batch-quiet codec s b)
  received-Next (some (Message.snapshot_end b)) h = ground (arith, end-quiet s b h)
  received-Next (some (Message.event e)) h =
      ground (arith, accept-Next s l stream d m e, string_eq.beq_iff e.stream stream)
  received-Next (some (Message.heartbeat b)) h = ground arith
  received-Next (some (Message.sequence_gap b)) h = ground arith
  received-Next (some (Message.error b)) h = ground arith

  ingest-Next :
      (message : ServerMessage)
      → is_commit s message ≡ false
      → Quiet s (ingest codec s message) l stream
        ⊎ Next s (ingest codec s message) l stream (is_quote stream message)
  ingest-Next message h = received-Next message.message h

  pub step-Next :
      (i : Input)
      → commits s i ≡ false
      → Quiet s (step codec s i) l stream ⊎ Next s (step codec s i) l stream (quotes stream i)
  unfolding step fire on_connecting on_disconnected update
  step-Next (received message) h = ingest-Next message h
  step-Next timer h = ground (arith, notify-deliveries l stream s.listeners)
  step-Next opening h = ground arith
  step-Next closed h = ground arith
