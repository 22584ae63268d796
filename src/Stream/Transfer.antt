-- ===== src/Stream/Transfer.antt =====
-- packages/sdk-ts/src/streamStore.ts: a snapshot from its first message to its commit.
use montlok_terminal.Prelude.{
  ℕ, zero, suc, ◌+◌, String, ◌≡◌, refl, ◌∙◌, ◌⊎◌, inl, inr, Bool, true, false, List, [], ◌∷◌,
  Option, none, some, arith, ◌==◌, string_eq, All, Option-cases, Bool-cases, not,
}
use montlok_terminal.JsMap.{get, get-set, get-set_self, get-delete_other}
use montlok_terminal.Stream.Protocol.{
  EventEnvelope, Message, ServerMessage, SnapshotBegin, SnapshotBatch, SnapshotEnd,
}
use montlok_terminal.Stream.Store.{
  TerminalStreamStore, StagedSnapshot, live, Codec, Table, ok, Result-cases, accept, accept_market,
  accept_critical, report_gap, update, fire, on_connecting,
}
use montlok_terminal.Stream.Ingest.{
  watermark_map, is_stale, ingest, ingest_message, begin_snapshot, stage_row, stage_rows,
  stage_table, batch_snapshot, is_inconsistent, end_snapshot, on_error, on_sequence_gap,
}
use montlok_terminal.Stream.Runs.{Input, received, timer, opening, closed, step, run}

-- A message that begins or commits the transfer `id` anew.
abbrev bounds : String → ServerMessage → Bool
bounds id m = elim m.message [
  | some (Message.snapshot_begin b) ↦ b.subscription_id == id
  | some (Message.snapshot_end b) ↦ b.subscription_id == id
  | _ ↦ false
]

-- An input that leaves the transfer `id` open.
abbrev pub spares : String → Input → Bool
spares id (received m) = not (bounds id m)
spares id closed = false
spares id _ = true

abbrev pub marks_of : Option StagedSnapshot → Option (List (String × ℕ))
marks_of none = none
marks_of (some staged) = some staged.positions

-- The transfer `id` is open, with the watermarks `marks`.
abbrev pub IsOpen : TerminalStreamStore → String → List (String × ℕ) → Type 0
IsOpen s id marks = marks_of (get s.snapshots id) ≡ some marks

stage_row-positions :
    (codec : Codec) (bytes : Option (List ℕ)) (staged staged' : StagedSnapshot)
    → stage_row codec bytes staged ≡ ok staged'
    → staged'.positions ≡ staged.positions
unfolding stage_row
stage_row-positions codec none staged staged' p = absurd (ground arith)
stage_row-positions codec (some bytes) staged staged' p = ground arith

stage_rows-positions :
    (codec : Codec) (payloads : ℕ → Option (List ℕ)) (left row : ℕ) (staged : StagedSnapshot)
    → (stage_rows codec payloads left row staged).0.positions ≡ staged.positions
unfolding stage_rows
stage_rows-positions codec payloads zero row staged = refl
stage_rows-positions codec payloads (suc left) row staged =
    elim (Result-cases (stage_row codec (payloads row) staged)) [
      | inl (message, q) ↦ rw (q, stage_rows)
      | inr (staged', q) ↦
          rw (q, stage_rows)
            (stage_rows-positions codec payloads left (row + 1) staged'
              ∙ stage_row-positions codec (payloads row) staged staged' q)
    ]

module _ (s : TerminalStreamStore) (id : String) (marks : List (String × ℕ))
    (h : IsOpen s id marks) where
  stage_table-IsOpen :
      (codec : Codec) (b : SnapshotBatch) (staged : StagedSnapshot) (t : Table)
      → get s.snapshots b.subscription_id ≡ some staged
      → IsOpen (stage_table codec s b staged t).store id marks
  unfolding stage_table
  stage_table-IsOpen codec b staged t q = elim (Option-cases t.payloads) [
    | inl p ↦ ground (arith, h)
    | inr (f, p) ↦
        let staged' = (stage_rows codec f t.num_rows 0 staged).0 in
        ground (
          arith,
          h,
          get-set s.snapshots b.subscription_id staged' id,
          string_eq.beq_iff b.subscription_id id,
          stage_rows-positions codec f t.num_rows 0 staged,
        )
  ]

  batch_snapshot-IsOpen :
      (codec : Codec) (b : SnapshotBatch) → IsOpen (batch_snapshot codec s b).store id marks
  unfolding batch_snapshot
  batch_snapshot-IsOpen codec b = elim (Option-cases (get s.snapshots b.subscription_id)) [
    | inl q ↦ ground (arith, h)
    | inr (staged, q) ↦ elim (Result-cases (codec.table_from_ipc b.arrow_ipc)) [
      | inl (message, r) ↦ ground (arith, h)
      | inr (t, r) ↦ ground (arith, h, stage_table-IsOpen codec b staged t q)
    ]
  ]

  begin_snapshot-IsOpen :
      (b : SnapshotBegin)
      → (b.subscription_id == id) ≡ false
      → IsOpen (begin_snapshot s b).store id marks
  unfolding begin_snapshot update
  begin_snapshot-IsOpen b g = ground (
    arith,
    h,
    get-set s.snapshots b.subscription_id
        (record { events = []; positions = watermark_map b.watermarks }) id,
  )

  end_snapshot-IsOpen :
      (b : SnapshotEnd)
      → (b.subscription_id == id) ≡ false
      → IsOpen (end_snapshot s b).store id marks
  unfolding end_snapshot update
  end_snapshot-IsOpen b g = ground (arith, h, get-delete_other s.snapshots b.subscription_id id g)

  accept-IsOpen : (e : EventEnvelope) → IsOpen (accept s e).store id marks
  unfolding accept accept_market accept_critical report_gap update
  accept-IsOpen e = ground (arith, h)

  received-IsOpen :
      (codec : Codec) (x : Option Message)
      → bounds id (record { message = x }) ≡ false
      → IsOpen (ingest codec s (record { message = x })).store id marks
  unfolding ingest ingest_message on_error on_sequence_gap update
  received-IsOpen codec none g = h
  received-IsOpen codec (some (Message.snapshot_begin b)) g = begin_snapshot-IsOpen b g
  received-IsOpen codec (some (Message.snapshot_batch b)) g = batch_snapshot-IsOpen codec b
  received-IsOpen codec (some (Message.snapshot_end b)) g = end_snapshot-IsOpen b g
  received-IsOpen codec (some (Message.event e)) g = accept-IsOpen e
  received-IsOpen codec (some m) g = ground (arith, h)

  step-IsOpen :
      (codec : Codec) (i : Input) → spares id i ≡ true → IsOpen (step codec s i).store id marks
  unfolding step fire on_connecting update
  step-IsOpen codec (received m) g = received-IsOpen codec m.message (ground arith)
  step-IsOpen codec timer g = ground (arith, h)
  step-IsOpen codec opening g = ground (arith, h)
  step-IsOpen codec closed g = absurd (ground arith)

run-IsOpen :
    (codec : Codec) (id : String) (marks : List (String × ℕ)) (s : TerminalStreamStore)
    (is : List Input)
    → IsOpen s id marks
    → All (λ i. spares id i ≡ true) is
    → IsOpen (run codec s is).0 id marks
unfolding run
run-IsOpen codec id marks s [] h g = h
run-IsOpen codec id marks s (i ∷ is) h g =
    run-IsOpen codec id marks (step codec s i).store is (step-IsOpen s id marks h codec i g.0) g.1

begun-IsOpen :
    (s : TerminalStreamStore) (b : SnapshotBegin)
    → is_stale s.working.positions (watermark_map b.watermarks) ≡ false
    → IsOpen (begin_snapshot s b).store b.subscription_id (watermark_map b.watermarks)
unfolding begin_snapshot update
begun-IsOpen s b fresh = ground (
  arith,
  get-set_self s.snapshots b.subscription_id
      (record { events = []; positions = watermark_map b.watermarks }),
)

abbrev pub Commits : TerminalStreamStore → SnapshotEnd → List (String × ℕ) → Type 0
Commits s e marks =
    let o = end_snapshot s e in
    (o.thrown ≡ none)
    × (o.store.working.positions ≡ marks)
    × (o.store.working.phase ≡ live)
    × (o.store.pending_market ≡ [])

abbrev pub Refuses : TerminalStreamStore → SnapshotEnd → Type 0
Refuses s e =
    let o = end_snapshot s e in (o.thrown ≡ some "快照水位不一致") × (o.store ≡ s) × (o.calls ≡ [])

module _ (s : TerminalStreamStore) (e : SnapshotEnd) (marks : List (String × ℕ))
    (h : IsOpen s e.subscription_id marks) where
  end_snapshot-Commits :
      is_inconsistent marks (watermark_map e.watermarks) ≡ false → Commits s e marks
  unfolding end_snapshot update
  end_snapshot-Commits g = ground (arith, h)

  end_snapshot-Refuses : is_inconsistent marks (watermark_map e.watermarks) ≡ true → Refuses s e
  unfolding end_snapshot update
  end_snapshot-Refuses g = ground (arith, h)

module _ (codec : Codec) (s : TerminalStreamStore) (b : SnapshotBegin) (is : List Input)
    (e : SnapshotEnd) where
  -- A snapshot begins at watermarks no lower than the positions reached. Whatever arrives next, but
  -- a message that begins or ends the same transfer and the loss of the connection: an end that
  -- names the same watermarks is accepted and leaves the view live at exactly these watermarks with
  -- no quote waiting, and an end that names others throws and leaves the store as it is.
  pub transfer-Commits :
      e.subscription_id ≡ b.subscription_id
      → is_stale s.working.positions (watermark_map b.watermarks) ≡ false
      → All (λ i. spares b.subscription_id i ≡ true) is
      → let before = (run codec (begin_snapshot s b).store is).0 in
        let marks = watermark_map b.watermarks in
        ((is_inconsistent marks (watermark_map e.watermarks) ≡ false) × Commits before e marks)
        ⊎ ((is_inconsistent marks (watermark_map e.watermarks) ≡ true) × Refuses before e)
  transfer-Commits same fresh g =
      let open_ =
        run-IsOpen codec b.subscription_id (watermark_map b.watermarks) (begin_snapshot s b).store
          is (begun-IsOpen s b fresh) g in
      elim (Bool-cases
        (is_inconsistent (watermark_map b.watermarks) (watermark_map e.watermarks))) [
          | inl q ↦ inr (q, end_snapshot-Refuses _ e _ (rw same open_) q)
          | inr q ↦ inl (q, end_snapshot-Commits _ e _ (rw same open_) q)
        ]
