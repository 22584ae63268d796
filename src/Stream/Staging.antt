-- ===== src/Stream/Staging.antt =====
-- packages/sdk-ts/src/streamStore.ts: the rows of a snapshot batch, and what a batch leaves alone.
use mathlib.Core.Option
use montlok_terminal.Prelude.{
  ℕ, zero, suc, ◌+◌, ◌≤◌, String, ◌≡◌, refl, ◌∙◌, inl, inr, Bool, true, false, List, [], ◌∷◌,
  Option, none, some, arith, string_eq, All,
}
use montlok_terminal.JsMap.{set, set_all}
use montlok_terminal.Stream.Protocol.{EventEnvelope, Message, SnapshotBatch}
use montlok_terminal.Stream.Store.{
  TerminalStreamStore, StagedSnapshot, Codec, ok, err, Result-cases, position, entity_key,
}
use montlok_terminal.Stream.Ingest.{
  ingest, ingest_message, stage_row, stage_rows, stage_table, batch_snapshot,
}
use montlok_terminal.Stream.Sound.{Within}
use montlok_terminal.Stream.Runs.{Input, received, step, run}

-- The rows of a batch as entries of a view: `none` if a row is no bytes or does not decode.
unfoldable pub decoded_rows :
    Codec → (ℕ → Option (List ℕ)) → ℕ → ℕ → Option (List (String × EventEnvelope))
decoded_rows codec payloads zero row = some []
decoded_rows codec payloads (suc left) row = elim (payloads row) [
  | none ↦ none
  | some bytes ↦ elim (codec.decode bytes) [
    | err message ↦ none
    | ok e ↦ Option.map (λ es. (entity_key e, e) ∷ es) (decoded_rows codec payloads left (row + 1))
  ]
]

stage_row_cases :
    (codec : Codec) (bytes : Option (List ℕ)) (staged staged' : StagedSnapshot)
    → stage_row codec bytes staged ≡ ok staged'
    → (raw : List ℕ) × (e : EventEnvelope) × (bytes ≡ some raw)
      × (codec.decode raw ≡ ok e)
      × (e.stream_seq ≤ position staged.positions e.stream)
      × (staged' ≡ record staged { events = set staged.events (entity_key e) e })
unfolding stage_row
stage_row_cases codec none staged staged' p = absurd (ground arith)
stage_row_cases codec (some raw) staged staged' p = elim (Result-cases (codec.decode raw)) [
  | inl (message, q) ↦ absurd (ground arith)
  | inr (e, q) ↦ (raw, e, refl, q, ground arith, ground arith)
]

-- A batch that is accepted adds exactly its rows, decoded and in order, to the staged view, each at
-- or below the watermark of its stream; a later row replaces an earlier one under its key.
pub stage_rows-decodes :
    (codec : Codec) (payloads : ℕ → Option (List ℕ)) (left row : ℕ) (staged : StagedSnapshot)
    → (stage_rows codec payloads left row staged).1 ≡ none
    → (es : List (String × EventEnvelope)) × (decoded_rows codec payloads left row ≡ some es)
      × ((stage_rows codec payloads left row staged).0.events ≡ set_all staged.events es)
      × Within es staged.positions
unfolding stage_rows decoded_rows set_all
stage_rows-decodes codec payloads zero row staged h = ([], refl, refl, tt)
stage_rows-decodes codec payloads (suc left) row staged h =
    elim (Result-cases (stage_row codec (payloads row) staged)) [
      | inl (message, q) ↦ absurd (ground arith)
      | inr (staged', q) ↦
          let (raw, e, at, decoded, le, step_) =
            stage_row_cases codec (payloads row) staged staged' q in
          let (es, rest, events, within) =
            stage_rows-decodes codec payloads left (row + 1) staged' (rw (q, stage_rows) at h) in
          (
            (entity_key e, e) ∷ es,
            ground (arith, rest),
            rw (q, stage_rows) (events ∙ rw step_),
            (le, rw step_ at within),
          )
    ]

abbrev pub is_batch : Input → Bool
is_batch (received m) = elim m.message [ some (Message.snapshot_batch b) ↦ true | _ ↦ false ]
is_batch _ = false

batch_snapshot-keeps :
    (codec : Codec) (s : TerminalStreamStore) (b : SnapshotBatch)
    → let s' = (batch_snapshot codec s b).store in
      (s'.working ≡ s.working) × (s'.pending_market ≡ s.pending_market) × (s'.state ≡ s.state)
unfolding batch_snapshot stage_table
batch_snapshot-keeps codec s b = ground arith

received-keeps :
    (codec : Codec) (s : TerminalStreamStore) (x : Option Message)
    → is_batch (received (record { message = x })) ≡ true
    → let s' = (ingest codec s (record { message = x })).store in
      (s'.working ≡ s.working) × (s'.pending_market ≡ s.pending_market) × (s'.state ≡ s.state)
unfolding ingest ingest_message
received-keeps codec s (some (Message.snapshot_batch b)) h = batch_snapshot-keeps codec s b
received-keeps codec s none h = absurd (ground arith)
received-keeps codec s (some m) h = absurd (ground arith)

-- The batches of a transfer change nothing that is shown, neither the working view with its positions
-- and waiting quotes nor the published state, whether or not they are refused.
pub run-batches-keeps :
    (codec : Codec) (s : TerminalStreamStore) (is : List Input)
    → All (λ i. is_batch i ≡ true) is
    → let s' = (run codec s is).0 in
      (s'.working ≡ s.working) × (s'.pending_market ≡ s.pending_market) × (s'.state ≡ s.state)
unfolding run step
run-batches-keeps codec s [] h = (refl, refl, refl)
run-batches-keeps codec s (received m ∷ is) h = ground (
  arith,
  received-keeps codec s m.message h.0,
  run-batches-keeps codec (ingest codec s m).store is h.1,
)
run-batches-keeps codec s (i ∷ is) h = absurd (ground arith)
