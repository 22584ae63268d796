-- ===== src/Stream/Examples.antt =====
-- packages/sdk-ts/src: the stream on concrete inputs, with a codec of one row.
use montlok_terminal.Prelude.{
  ℕ, ◌+◌, String, ◌≡◌, ◌⊎◌, refl, true, false, List, [], ◌∷◌, Option, none, some, string_eq, length,
}
use montlok_terminal.Prelude.Int.{pos}
use montlok_terminal.JsMap.{set_all, set}
use montlok_terminal.Stream.Protocol.{
  EventType, EventEnvelope, ResumePosition, SnapshotBegin, SnapshotEnd, Message,
}
use montlok_terminal.Stream.Store.{
  accept, accept_critical, accept_market, update, report_gap, fire, TerminalStreamStore, Codec,
  Result, ok, err, new_store, position, StagedSnapshot,
}
use montlok_terminal.Stream.Ingest.{
  ingest, ingest_message, end_snapshot, is_behind, begin_snapshot, watermark_map, is_stale,
  is_inconsistent, stage_rows, stage_row,
}
use montlok_terminal.Stream.Runs.{step, Input, received, timer, run}
use montlok_terminal.Stream.Order.{Ascends, Consecutive, run-Ascends, run-Consecutive}
use montlok_terminal.Stream.Delivery.{deliveries}
use montlok_terminal.Stream.Sound.{IsSound, Within}
use montlok_terminal.Stream.SoundRuns.{run-IsSound, new_store-IsSound}
use montlok_terminal.Stream.Publish.{IsScheduled, run-IsScheduled, new_store-IsScheduled}
use montlok_terminal.Stream.Transfer.{Commits, Refuses, transfer-Commits}
use montlok_terminal.Stream.Staging.{decoded_rows, stage_rows-decodes}

abbrev event_of : EventType → String → ℕ → EventEnvelope
event_of kind stream seq = record {
  schema_version = 2;
  stream = stream;
  stream_seq = seq;
  snapshot_seq = 0;
  event_id = "e";
  event_type = kind;
  occurred_at_ns = pos 0;
  received_at_ns = pos 0;
  account_id = "";
  strategy_group_id = "";
  run_id = "";
  instrument_id = "BTC-USDT";
  correlation_id = "";
  causation_id = "";
  source = "okx";
  source_payload_json = [];
  payload = none;
}

abbrev fill : ℕ → Input
fill seq =
    received (record { message = some (Message.event (event_of EventType.fill_received "a" seq)) })

abbrev quote : ℕ → Input
quote seq =
    received (record { message = some (Message.event (event_of EventType.market_quote "b" seq)) })

-- A frame of one byte is the fill of that number on the stream "a".
abbrev byte_codec : Codec
byte_codec = record {
  table_from_ipc = λ bytes.
      ok (record { num_rows = length bytes; payloads = some (λ row. some ((row + 1) ∷ [])) });
  decode = λ bytes. elim bytes [
    | [] ↦ err "empty"
    | seq ∷ rest ↦ ok (event_of EventType.fill_received "a" seq)
  ];
}

abbrev watched : TerminalStreamStore
watched = record new_store { critical_listeners = 7 ∷ [] }

abbrev marks_at : ℕ → List ResumePosition
marks_at seq = record { stream = "a"; last_stream_seq = seq } ∷ []

abbrev begin_at : ℕ → SnapshotBegin
begin_at seq = record {
  subscription_id = "s";
  snapshot_seq = 0;
  arrow_schema = [];
  watermarks = marks_at seq;
}

abbrev end_at : ℕ → SnapshotEnd
end_at seq = record {
  subscription_id = "s";
  snapshot_seq = 0;
  last_stream_seq = seq;
  watermarks = marks_at seq;
}

abbrev batch : Input
batch = received (record {
  message = some (
      Message.snapshot_batch
        (record { subscription_id = "s"; arrow_ipc = 0 ∷ 0 ∷ []; row_count = 2 }));
})

abbrev replay_end : Input
replay_end = received (record { message = some (Message.snapshot_end (end_at 2)) })

-- A duplicate and a gap between two fills, a quote, and the end of a replay, which is refused first.
abbrev busy : List Input
busy = fill 1 ∷ fill 1 ∷ quote 1 ∷ replay_end ∷ fill 3 ∷ timer ∷ fill 2 ∷ replay_end ∷ []

run-Ascends_example :
    Ascends 0
      (deliveries 7 "a" (run byte_codec watched busy).1)
      (position (run byte_codec watched busy).0.working.positions "a")
unfolding step ingest ingest_message accept accept_critical update set accept_market end_snapshot
    is_behind report_gap fire
run-Ascends_example =
    run-Ascends byte_codec 7 "a" watched busy (refl, tt) refl
      (refl, (refl, (refl, (refl, (refl, (refl, (refl, (refl, tt))))))))

run-Consecutive_example :
    Consecutive 0
      (deliveries 7 "a" (run byte_codec watched busy).1)
      (position (run byte_codec watched busy).0.working.positions "a")
unfolding step ingest ingest_message accept accept_critical update set accept_market end_snapshot
    is_behind report_gap fire
run-Consecutive_example =
    run-Consecutive byte_codec 7 "a" watched busy (refl, tt) refl
      (refl, (refl, (refl, (refl, (refl, (refl, (refl, (refl, tt))))))))
      (refl, (refl, (refl, (refl, (refl, (refl, (refl, (refl, tt))))))))

run-IsSound_example : IsSound (run byte_codec new_store busy).0
run-IsSound_example = run-IsSound byte_codec new_store busy new_store-IsSound

run-IsScheduled_example : IsScheduled (run byte_codec new_store busy).0
run-IsScheduled_example = run-IsScheduled byte_codec new_store busy new_store-IsScheduled

abbrev quoted : TerminalStreamStore
quoted = (run byte_codec new_store (quote 1 ∷ [])).0

transfer-Commits_example :
    let before =
      (run byte_codec (begin_snapshot new_store (begin_at 2)).store (batch ∷ fill 1 ∷ [])).0 in
    let marks = watermark_map (marks_at 2) in
    ((is_inconsistent marks (watermark_map (marks_at 2)) ≡ false) × Commits before (end_at 2) marks)
    ⊎ ((is_inconsistent marks (watermark_map (marks_at 2)) ≡ true) × Refuses before (end_at 2))
unfolding is_stale watermark_map set_all set
transfer-Commits_example =
    transfer-Commits byte_codec new_store (begin_at 2) (batch ∷ fill 1 ∷ []) (end_at 2) refl refl
      (refl, (refl, tt))

abbrev staged_at_two : StagedSnapshot
staged_at_two = record { events = []; positions = ("a", 2) ∷ [] }

abbrev two_rows : ℕ → Option (List ℕ)
two_rows row = some ((row + 1) ∷ [])

stage_rows-decodes_example :
    (es : List (String × EventEnvelope)) × (decoded_rows byte_codec two_rows 2 0 ≡ some es)
    × ((stage_rows byte_codec two_rows 2 0 staged_at_two).0.events ≡ set_all [] es)
    × Within es staged_at_two.positions
unfolding stage_rows stage_row set
stage_rows-decodes_example = stage_rows-decodes byte_codec two_rows 2 0 staged_at_two refl

abbrev clock : ℕ → String
clock seconds = "00:00:00"

-- Each text stands for the first fill of a stream of that name.
abbrev read_text : String → Result EventEnvelope
read_text text = ok (event_of EventType.fill_received text 1)

abbrev encoding : String
encoding = "protobuf-base64"

abbrev related : List String
related = "x" ∷ "y" ∷ []
