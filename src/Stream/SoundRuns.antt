-- ===== src/Stream/SoundRuns.antt =====
-- packages/sdk-ts/src/streamStore.ts: every input keeps the events of the store within its positions.
use montlok_terminal.Prelude.{
  ℕ, zero, suc, ◌+◌, ◌≤◌, String, ◌≡◌, inl, inr, List, [], ◌∷◌, Option, none, some, arith,
  string_eq, All, Option-cases,
}
use montlok_terminal.JsMap.{get, set, delete, get-set_self}
use montlok_terminal.Stream.Protocol.{
  EventEnvelope, Message, SnapshotBegin, SnapshotBatch, SnapshotEnd,
}
use montlok_terminal.Stream.Store.{
  TerminalStreamStore, new_store, StagedSnapshot, Codec, Table, ok, Result-cases, snapshot,
  recovering, live, position, entity_key, accept, accept_market, accept_critical, report_gap, fire,
  on_connecting, on_disconnected,
}
use montlok_terminal.Stream.Ingest.{
  watermark_map, ingest, ingest_message, begin_snapshot, stage_row, stage_rows, stage_table,
  batch_snapshot, end_snapshot, on_error, on_sequence_gap,
}
use montlok_terminal.Stream.Runs.{Input, received, timer, opening, closed, step, run}
use montlok_terminal.Stream.Sound.{
  Within, Within-set, Within-trim, Within-set_all, Within-advance, IsStaged, IsSound, All-set,
  All-delete, IsStaged-get, update-IsSound,
}

module _ (s : TerminalStreamStore) (h : IsSound s) where
  open s use {working as w}

  -- An accepted event is the next of its stream, so nothing that is held gets ahead.
  module _ (e : EventEnvelope) (le : position w.positions e.stream ≤ e.stream_seq) where
    reached : e.stream_seq ≤ position (set w.positions e.stream e.stream_seq) e.stream
    reached = ground (arith, get-set_self w.positions e.stream e.stream_seq)

    accept_market-IsSound : IsSound (accept_market s e).store
    unfolding accept_market
    accept_market-IsSound =
        update-IsSound _ _ (Within-advance w.positions w.events e.stream e.stream_seq le h.working)
          (Within-set _ s.pending_market (entity_key e) e
            (Within-advance w.positions s.pending_market e.stream e.stream_seq le h.pending)
            reached)
          h.staged h.published

    accept_critical-IsSound : IsSound (accept_critical s e).store
    unfolding accept_critical
    accept_critical-IsSound =
        update-IsSound _ _
          (Within-trim _ _ (
            Within-set _ w.events (entity_key e) e
              (Within-advance w.positions w.events e.stream e.stream_seq le h.working) reached))
          (Within-advance w.positions s.pending_market e.stream e.stream_seq le h.pending) h.staged
          h.published

  report_gap-IsSound : (stream : String) → IsSound (report_gap s stream).store
  unfolding report_gap
  report_gap-IsSound stream = update-IsSound _ _ h.working h.pending h.staged h.published

  accept-IsSound : (e : EventEnvelope) → IsSound (accept s e).store
  unfolding accept
  accept-IsSound e =
      ground
        (arith, h, accept_market-IsSound e, accept_critical-IsSound e, report_gap-IsSound e.stream)

stage_row-Within :
    (codec : Codec) (bytes : Option (List ℕ)) (staged staged' : StagedSnapshot)
    → Within staged.events staged.positions
    → stage_row codec bytes staged ≡ ok staged'
    → Within staged'.events staged'.positions
unfolding stage_row
stage_row-Within codec none staged staged' h p = absurd (ground arith)
stage_row-Within codec (some bytes) staged staged' h p = elim (Result-cases (codec.decode bytes)) [
  | inl (message, q) ↦ absurd (ground arith)
  | inr (e, q) ↦ ground (arith, Within-set staged.positions staged.events (entity_key e) e h)
]

stage_rows-Within :
    (codec : Codec) (payloads : ℕ → Option (List ℕ)) (left row : ℕ) (staged : StagedSnapshot)
    → Within staged.events staged.positions
    → let staged' = (stage_rows codec payloads left row staged).0 in
      Within staged'.events staged'.positions
unfolding stage_rows
stage_rows-Within codec payloads zero row staged h = h
stage_rows-Within codec payloads (suc left) row staged h =
    elim (Result-cases (stage_row codec (payloads row) staged)) [
      | inl (message, q) ↦ rw (q, stage_rows) h
      | inr (staged', q) ↦
          rw (q, stage_rows)
            (stage_rows-Within codec payloads left (row + 1) staged'
              (stage_row-Within codec (payloads row) staged staged' h q))
    ]

module _ (codec : Codec) (s : TerminalStreamStore) (h : IsSound s) where
  open s use {working as w}

  begin_snapshot-IsSound : (b : SnapshotBegin) → IsSound (begin_snapshot s b).store
  unfolding begin_snapshot
  begin_snapshot-IsSound b = ground (
    arith,
    h,
    update-IsSound
        (record s {
          snapshots =
              set s.snapshots b.subscription_id
                (record { events = []; positions = watermark_map b.watermarks });
        })
        (record w { phase = snapshot }) h.working h.pending
        (All-set s.snapshots b.subscription_id _ h.staged tt) h.published,
  )

  snapshots-IsSound :
      {m : List (String × StagedSnapshot)} → All IsStaged m → IsSound (record s { snapshots = m })
  snapshots-IsSound g = record {
    working = h.working;
    pending = h.pending;
    staged = g;
    published = h.published;
  }

  stage_table-IsSound :
      (b : SnapshotBatch) (staged : StagedSnapshot) (t : Table)
      → Within staged.events staged.positions
      → IsSound (stage_table codec s b staged t).store
  unfolding stage_table
  stage_table-IsSound b staged t g =
      let staged' = λ (f : ℕ → Option (List ℕ)). (stage_rows codec f t.num_rows 0 staged).0 in
      elim (Option-cases t.payloads) [
        | inl q ↦ ground (arith, h)
        | inr (f, q) ↦ ground (
          arith,
          h,
          snapshots-IsSound (
              All-set s.snapshots b.subscription_id (staged' f) h.staged
                (stage_rows-Within codec f t.num_rows 0 staged g)),
        )
      ]

  batch_snapshot-IsSound : (b : SnapshotBatch) → IsSound (batch_snapshot codec s b).store
  unfolding batch_snapshot
  batch_snapshot-IsSound b = elim (Option-cases (get s.snapshots b.subscription_id)) [
    | inl q ↦ ground (arith, h)
    | inr (staged, q) ↦ elim (Result-cases (codec.table_from_ipc b.arrow_ipc)) [
      | inl (message, r) ↦ ground (arith, h)
      | inr (t, r) ↦ ground (
        arith,
        h,
        stage_table-IsSound b staged t (IsStaged-get _ b.subscription_id staged h.staged q),
      )
    ]
  ]

  end_snapshot-IsSound : (b : SnapshotEnd) → IsSound (end_snapshot s b).store
  unfolding end_snapshot
  end_snapshot-IsSound b = elim (Option-cases (get s.snapshots b.subscription_id)) [
    | inl q ↦ ground (
      arith,
      h,
      update-IsSound s (record w { phase = live }) h.working h.pending h.staged h.published,
    )
    | inr (staged, q) ↦ ground (
      arith,
      h,
      update-IsSound
          (record s { snapshots = delete s.snapshots b.subscription_id; pending_market = [] })
          (record w { events = staged.events; positions = staged.positions; phase = live })
          (IsStaged-get _ b.subscription_id staged h.staged q) tt
          (All-delete s.snapshots b.subscription_id h.staged) h.published,
    )
  ]

  received-IsSound : (x : Option Message) → IsSound (ingest codec s (record { message = x })).store
  unfolding ingest ingest_message on_error on_sequence_gap
  received-IsSound none = h
  received-IsSound (some (Message.snapshot_begin b)) = begin_snapshot-IsSound b
  received-IsSound (some (Message.snapshot_batch b)) = batch_snapshot-IsSound b
  received-IsSound (some (Message.snapshot_end b)) = end_snapshot-IsSound b
  received-IsSound (some (Message.event e)) = accept-IsSound s h e
  received-IsSound (some (Message.heartbeat b)) =
      update-IsSound _ _ h.working h.pending h.staged h.published
  received-IsSound (some (Message.sequence_gap b)) =
      update-IsSound _ _ h.working h.pending h.staged h.published
  received-IsSound (some (Message.error b)) = ground (
    arith,
    update-IsSound s (record w { phase = recovering }) h.working h.pending h.staged h.published,
  )

  fire-IsSound : IsSound (fire s).store
  unfolding fire
  fire-IsSound =
      let merged = Within-set_all w.positions w.events s.pending_market h.working h.pending in
      record { working = merged; pending = tt; staged = h.staged; published = merged }

  step-IsSound : (i : Input) → IsSound (step codec s i).store
  unfolding step on_connecting on_disconnected
  step-IsSound (received m) = received-IsSound m.message
  step-IsSound timer = ground (arith, h, fire-IsSound)
  step-IsSound opening = update-IsSound _ _ h.working h.pending h.staged h.published
  step-IsSound closed =
      update-IsSound _ _ (Within-set_all w.positions w.events s.pending_market h.working h.pending)
        tt tt h.published

-- Whatever inputs arrive, every event in the working view, waiting for the timer, staged in a
-- snapshot or published is at or below the position of its stream, if that held before.
pub run-IsSound :
    (codec : Codec) (s : TerminalStreamStore) (is : List Input)
    → IsSound s
    → IsSound (run codec s is).0
unfolding run
run-IsSound codec s [] h = h
run-IsSound codec s (i ∷ is) h =
    run-IsSound codec (step codec s i).store is (step-IsSound codec s h i)

pub new_store-IsSound : IsSound new_store
new_store-IsSound = record { working = tt; pending = tt; staged = tt; published = tt }
