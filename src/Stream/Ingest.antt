-- ===== src/Stream/Ingest.antt =====
-- packages/sdk-ts/src/streamStore.ts: `ingest`, and the transfer of a snapshot.
use montlok_terminal.Prelude.{
  ℕ, zero, suc, ◌+◌, String, Bool, true, not, ◌||◌, List, [], ◌∷◌, Option, none, some, map,
  if◌then◌else◌, ltb, ◌==◌, nat_eq, string_eq, length, any,
}
use montlok_terminal.JsMap.{get, set, delete, set_all}
use montlok_terminal.Stream.Protocol.{
  ResumePosition, SnapshotBegin, SnapshotBatch, SnapshotEnd, SequenceGap, StreamError, Message,
  ServerMessage,
}
use montlok_terminal.Stream.Store.{
  snapshot, live, recovering, StagedSnapshot, TerminalStreamStore, recover, Outcome, Result, ok,
  err, Table, Codec, entity_key, position, update, accept, done, throws,
}

abbrev pair_of : ResumePosition → String × ℕ
pair_of p = (p.stream, p.last_stream_seq)

-- `new Map(watermarks.map(…))`
unfoldable pub watermark_map : List ResumePosition → List (String × ℕ)
watermark_map ws = set_all [] (map pair_of ws)

-- A watermark below the position that has been reached.
unfoldable pub is_stale : List (String × ℕ) → List (String × ℕ) → Bool
is_stale positions marks = any (λ m. ltb m.1 (position positions m.0)) marks

unfoldable pub begin_snapshot : TerminalStreamStore → SnapshotBegin → Outcome
begin_snapshot s b =
    let marks = watermark_map b.watermarks in
    let staged : StagedSnapshot = record { events = []; positions = marks } in
    if is_stale s.working.positions marks
    then throws s "陈旧快照序号"
    else done
        (update (record s { snapshots = set s.snapshots b.subscription_id staged })
          (record (s.working) { phase = snapshot }))
        []

-- One row of the batch: the bytes, their event, and its check against the watermark.
unfoldable pub stage_row : Codec → Option (List ℕ) → StagedSnapshot → Result StagedSnapshot
stage_row codec none staged = err "快照事件格式错误"
stage_row codec (some bytes) staged = elim (codec.decode bytes) [
  | err message ↦ err message
  | ok e ↦
      if ltb (position staged.positions e.stream) e.stream_seq
      then err "事件超过快照水位"
      else ok (record staged { events = set staged.events (entity_key e) e })
]

-- The loop over the rows, from `row` on. The rows before a bad one stay staged.
unfoldable pub stage_rows :
    Codec → (ℕ → Option (List ℕ)) → ℕ → ℕ → StagedSnapshot → StagedSnapshot × Option String
stage_rows codec payloads zero row staged = (staged, none)
stage_rows codec payloads (suc left) row staged = elim (stage_row codec (payloads row) staged) [
  | err message ↦ (staged, some message)
  | ok staged' ↦ stage_rows codec payloads left (row + 1) staged'
]

unfoldable pub stage_table :
    Codec → TerminalStreamStore → SnapshotBatch → StagedSnapshot → Table → Outcome
stage_table codec s b staged table =
    if not (table.num_rows == b.row_count) then throws s "快照行数不一致" else elim table.payloads [
      | none ↦ throws s "快照缺少事件列"
      | some payloads ↦
          let (staged', thrown) = stage_rows codec payloads table.num_rows 0 staged in
          record {
            store = record s { snapshots = set s.snapshots b.subscription_id staged' };
            calls = [];
            thrown = thrown;
          }
    ]

unfoldable pub batch_snapshot : Codec → TerminalStreamStore → SnapshotBatch → Outcome
batch_snapshot codec s b = elim (get s.snapshots b.subscription_id) [
  | none ↦ throws s "快照批次缺少开始消息"
  | some staged ↦
      if ltb 1048576 (length b.arrow_ipc) || ltb 2048 b.row_count
      then throws s "快照批次超过协议容量"
      else elim (codec.table_from_ipc b.arrow_ipc) [
        | err message ↦ throws s message
        | ok table ↦ stage_table codec s b staged table
      ]
]

abbrev pub differs : List (String × ℕ) → String × ℕ → Bool
differs positions (stream, seq) = elim (get positions stream) [
  | none ↦ true
  | some n ↦ not (n == seq)
]

-- The watermarks at the end are not those at the beginning.
unfoldable pub is_inconsistent : List (String × ℕ) → List (String × ℕ) → Bool
is_inconsistent staged final =
    not (length final == length staged) || any (λ m. differs staged m) final

unfoldable pub is_behind : List (String × ℕ) → List ResumePosition → Bool
is_behind positions marks =
    any (λ (p : ResumePosition). ltb (position positions p.stream) p.last_stream_seq) marks

unfoldable pub end_snapshot : TerminalStreamStore → SnapshotEnd → Outcome
end_snapshot s b = elim (get s.snapshots b.subscription_id) [
  | some staged ↦
      if is_inconsistent staged.positions (watermark_map b.watermarks)
      then throws s "快照水位不一致"
      else done
          (update
            (record s { snapshots = delete s.snapshots b.subscription_id; pending_market = [] })
            (record (s.working) {
              events = staged.events;
              positions = staged.positions;
              phase = live;
            }))
          []
  | none ↦
      if is_behind s.working.positions b.watermarks
      then throws s "回放未达到确认水位"
      else done (update s (record (s.working) { phase = live })) []
]

unfoldable pub on_sequence_gap : TerminalStreamStore → SequenceGap → Outcome
on_sequence_gap s g =
    done (update s (record (s.working) { phase = recovering; gaps = s.working.gaps + 1 }))
      (recover g.stream (position s.working.positions g.stream) ∷ [])

unfoldable pub on_error : TerminalStreamStore → StreamError → Outcome
on_error s e =
    let s' = update s (record (s.working) { phase = recovering }) in
    if e.retryable then done s' (recover "*" 0 ∷ []) else throws s' e.detail

unfoldable pub ingest_message : Codec → TerminalStreamStore → Message → Outcome
ingest_message codec s (Message.snapshot_begin b) = begin_snapshot s b
ingest_message codec s (Message.snapshot_batch b) = batch_snapshot codec s b
ingest_message codec s (Message.snapshot_end b) = end_snapshot s b
ingest_message codec s (Message.event e) = accept s e
ingest_message codec s (Message.heartbeat h) =
    done (update s (record (s.working) { last_heartbeat_ns = h.server_time_ns })) []
ingest_message codec s (Message.sequence_gap g) = on_sequence_gap s g
ingest_message codec s (Message.error e) = on_error s e

unfoldable pub ingest : Codec → TerminalStreamStore → ServerMessage → Outcome
ingest codec s m = elim m.message [
  | none ↦ done s []
  | some message ↦ ingest_message codec s message
]
