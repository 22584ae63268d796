-- ===== src/Stream/Publish.antt =====
-- packages/sdk-ts/src/streamStore.ts: the view timer, and what the readers of the store are shown.
use montlok_terminal.Prelude.{
  ◌+◌, ◌≤◌, max, String, ◌≡◌, ◌≢◌, ◌⊎◌, inr, refl, true, List, [], ◌∷◌, Option, none, some, arith,
  if◌then◌else◌, string_eq, length, Distinct, map,
}
use montlok_terminal.JsMap.{
  get, has, set, keys, get-set_all, Distinct-keys-set, length-set, length-delete_head,
}
use montlok_terminal.Stream.Protocol.{
  EventEnvelope, Message, SnapshotBegin, SnapshotBatch, SnapshotEnd,
}
use montlok_terminal.Stream.Store.{
  TerminalStreamStore, new_store, StagedSnapshot, Table, recovering, StreamState, notify, Codec,
  entity_key, trim, view_limit, accept, accept_market, accept_critical, report_gap, update, fire,
  on_connecting, on_disconnected,
}
use montlok_terminal.Stream.Ingest.{
  ingest, ingest_message, begin_snapshot, stage_table, batch_snapshot, end_snapshot, on_error,
  on_sequence_gap,
}
use montlok_terminal.Stream.Runs.{Input, received, timer, step, run}

-- One timer is pending exactly while a change waits; without one, what is published is all there is.
pub record IsScheduled (s : TerminalStreamStore) : Type 0 where
  pub queued : s.notify_queued ≡ s.notify_timer
  pub idle : (s.notify_timer ≡ true) ⊎ ((s.working ≡ s.state) × (s.pending_market ≡ []))
  pub distinct : Distinct (keys s.pending_market)

update-IsScheduled :
    (s : TerminalStreamStore) (w : StreamState)
    → s.notify_queued ≡ s.notify_timer
    → Distinct (keys s.pending_market)
    → IsScheduled (update s w)
unfolding update
update-IsScheduled s w q d = ground arith

module _ (s : TerminalStreamStore) (h : IsScheduled s) where
  accept_market-IsScheduled : (e : EventEnvelope) → IsScheduled (accept_market s e).store
  unfolding accept_market
  accept_market-IsScheduled e =
      update-IsScheduled _ _ h.queued
        (Distinct-keys-set s.pending_market (entity_key e) e h.distinct)

  accept_critical-IsScheduled : (e : EventEnvelope) → IsScheduled (accept_critical s e).store
  unfolding accept_critical
  accept_critical-IsScheduled e = update-IsScheduled _ _ h.queued h.distinct

  accept-IsScheduled : (e : EventEnvelope) → IsScheduled (accept s e).store
  unfolding accept report_gap
  accept-IsScheduled e = ground (
    arith,
    h,
    accept_market-IsScheduled e,
    accept_critical-IsScheduled e,
    update-IsScheduled s (record (s.working) { phase = recovering; gaps = s.working.gaps + 1 })
        h.queued h.distinct,
  )

  begin_snapshot-IsScheduled : (b : SnapshotBegin) → IsScheduled (begin_snapshot s b).store
  unfolding begin_snapshot update
  begin_snapshot-IsScheduled b = ground (arith, h)

  stage_table-IsScheduled :
      (codec : Codec) (b : SnapshotBatch) (staged : StagedSnapshot) (t : Table)
      → IsScheduled (stage_table codec s b staged t).store
  unfolding stage_table
  stage_table-IsScheduled codec b staged t = ground (arith, h)

  batch_snapshot-IsScheduled :
      (codec : Codec) (b : SnapshotBatch) → IsScheduled (batch_snapshot codec s b).store
  unfolding batch_snapshot
  batch_snapshot-IsScheduled codec b = grind (arith, stage_table-IsScheduled)

  end_snapshot-IsScheduled : (b : SnapshotEnd) → IsScheduled (end_snapshot s b).store
  unfolding end_snapshot update
  end_snapshot-IsScheduled b = ground (arith, h)

  received-IsScheduled :
      (codec : Codec) (x : Option Message)
      → IsScheduled (ingest codec s (record { message = x })).store
  unfolding ingest ingest_message on_error on_sequence_gap update
  received-IsScheduled codec none = h
  received-IsScheduled codec (some (Message.snapshot_begin b)) = begin_snapshot-IsScheduled b
  received-IsScheduled codec (some (Message.snapshot_batch b)) = batch_snapshot-IsScheduled codec b
  received-IsScheduled codec (some (Message.snapshot_end b)) = end_snapshot-IsScheduled b
  received-IsScheduled codec (some (Message.event e)) = accept-IsScheduled e
  received-IsScheduled codec (some m) = ground (arith, h)

  step-IsScheduled : (codec : Codec) (i : Input) → IsScheduled (step codec s i).store
  unfolding step fire on_connecting on_disconnected update
  step-IsScheduled codec (received m) = received-IsScheduled codec m.message
  step-IsScheduled codec i = ground (arith, h)

pub run-IsScheduled :
    (codec : Codec) (s : TerminalStreamStore) (is : List Input)
    → IsScheduled s
    → IsScheduled (run codec s is).0
unfolding run
run-IsScheduled codec s [] h = h
run-IsScheduled codec s (i ∷ is) h =
    run-IsScheduled codec (step codec s i).store is (step-IsScheduled s h codec i)

pub new_store-IsScheduled : IsScheduled new_store
new_store-IsScheduled = record { queued = refl; idle = inr (refl, refl); distinct = tt }

batch_snapshot-state :
    (codec : Codec) (s : TerminalStreamStore) (b : SnapshotBatch)
    → (batch_snapshot codec s b).store.state ≡ s.state
unfolding batch_snapshot stage_table
batch_snapshot-state codec s b = ground arith

received-state :
    (codec : Codec) (s : TerminalStreamStore) (x : Option Message)
    → (ingest codec s (record { message = x })).store.state ≡ s.state
unfolding ingest ingest_message begin_snapshot end_snapshot on_error on_sequence_gap accept
    accept_market accept_critical report_gap update
received-state codec s none = refl
received-state codec s (some (Message.snapshot_batch b)) = batch_snapshot-state codec s b
received-state codec s (some m) = ground arith

-- Between two timers the published state stands still, whatever arrives.
pub step-state :
    (codec : Codec) (s : TerminalStreamStore) (i : Input)
    → i ≢ timer
    → (step codec s i).store.state ≡ s.state
unfolding step on_connecting on_disconnected update
step-state codec s (received m) h = received-state codec s m.message
step-state codec s timer h = absurd (h refl)
step-state codec s i h = ground arith

-- A pending timer publishes, under each key, the quote that waits there and otherwise the event of
-- the working view, with the positions reached, under a new version, and notifies every listener.
pub timer-publishes :
    (codec : Codec) (s : TerminalStreamStore) (k : String)
    → IsScheduled s
    → s.notify_timer ≡ true
    → let o = step codec s timer in
      (get o.store.state.events k
        ≡ (if has s.pending_market k then get s.pending_market k else get s.working.events k))
      × (o.store.state.positions ≡ s.working.positions)
      × (o.store.state.version ≡ s.working.version + 1)
      × (o.calls ≡ map notify s.listeners)
      × (o.store.pending_market ≡ [])
unfolding step fire
timer-publishes codec s k h t =
    ground (arith, get-set_all s.working.events s.pending_market k h.distinct)

length-trim-set :
    (m : List (String × EventEnvelope)) (k : String) (e : EventEnvelope)
    → length (trim (set m k e)) ≤ max view_limit (length m)
unfolding trim
length-trim-set m k e = go (set m k e) (length-set m k e)
  where
    go :
        (m' : List (String × EventEnvelope))
        → length m' ≡ (if has m k then length m else length m + 1)
        → length (trim m') ≤ max view_limit (length m)
    go [] q = omega arith
    go ((j, w) ∷ m') q = ground (arith, length-delete_head j w m')

-- An event never lets the working view grow past its limit, nor past its size where the view is
-- larger already.
pub accept-length :
    (s : TerminalStreamStore) (e : EventEnvelope)
    → length (accept s e).store.working.events ≤ max view_limit (length s.working.events)
unfolding accept accept_market accept_critical report_gap update
accept-length s e = ground (arith, length-trim-set s.working.events (entity_key e) e)
