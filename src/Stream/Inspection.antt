-- ===== src/Stream/Inspection.antt =====
-- apps/web/src/operator/eventDetailModel.ts: the fields that the inspector lists, and related events.
use montlok_terminal.Prelude.{
  ℕ, ◌≤◌, String, ◌≡◌, ◌↔◌, inl, inr, true, false, List, [], ◌∷◌, Option, some, map, arith, ◌==◌,
  ltb, string_eq, length, Distinct, Bool-cases,
}
use montlok_terminal.Stream.Protocol.{Payload, EventEnvelope}
use montlok_terminal.Stream.Store.{Result, ok, Result-cases}
use montlok_terminal.Stream.Detail.{
  Field, event_fields, payload_fields, decode_all, decode_related, same_run,
}

names-Distinct :
    (clock : ℕ → String) (e : EventEnvelope) (payload : Option Payload)
    → Distinct (map (λ (f : Field). f.0) (event_fields clock (record e { payload = payload })))
unfolding event_fields payload_fields
names-Distinct clock e (some (Payload.order_event o)) = ground arith
names-Distinct clock e (some (Payload.fill_received f)) = ground arith
names-Distinct clock e (some (Payload.route_updated r)) = ground arith
names-Distinct clock e payload = ground arith

-- The inspector never lists two fields under one name, whatever the event and its payload are.
pub event_fields-Distinct :
    (clock : ℕ → String) (e : EventEnvelope)
    → Distinct (map (λ (f : Field). f.0) (event_fields clock e))
event_fields-Distinct clock e = names-Distinct clock e e.payload

-- Each event is what its text decodes to, in order, none left out.
abbrev pub AreDecoded : (String → Result EventEnvelope) → List String → List EventEnvelope → Type 0
AreDecoded decode [] [] = Unit
AreDecoded decode (x ∷ xs) (e ∷ es) = (decode x ≡ ok e) × AreDecoded decode xs es
AreDecoded decode _ _ = true ≡ false

decode_all-AreDecoded :
    (decode : String → Result EventEnvelope) (xs : List String) (es : List EventEnvelope)
    → decode_all decode xs ≡ ok es
    → AreDecoded decode xs es
unfolding decode_all
decode_all-AreDecoded decode [] [] h = tt
decode_all-AreDecoded decode [] (e ∷ es) h = absurd (ground (arith, h))
decode_all-AreDecoded decode (x ∷ xs) es h = elim (Result-cases (decode x)) [
  | inl (m, q) ↦ absurd (ground (arith, h, q))
  | inr (e, q) ↦ elim (Result-cases (decode_all decode xs)) [
    | inl (m, p) ↦ absurd (ground (arith, h, q, p))
    | inr (es', p) ↦
        let same : e ∷ es' ≡ es = ground (arith, h, q, p) in
        rw (← same) (q, decode_all-AreDecoded decode xs es' p)
  ]
]

-- Related events are shown only where the answer has the right encoding and at most 2048 of them, and
-- then each is what its text decodes to, in order, none left out.
pub decode_related-AreDecoded :
    (decode : String → Result EventEnvelope) (encoding : String) (xs : List String)
    (es : List EventEnvelope)
    → decode_related decode encoding (some xs) ≡ ok es
    → (encoding ≡ "protobuf-base64") × (length xs ≤ 2048) × AreDecoded decode xs es
unfolding decode_related
decode_related-AreDecoded decode encoding xs es h =
    elim (Bool-cases (encoding == "protobuf-base64")) [
      | inr q ↦ absurd (ground (arith, h, q))
      | inl q ↦ elim (Bool-cases (ltb 2048 (length xs))) [
        | inl p ↦ absurd (ground (arith, h, q, p))
        | inr p ↦ (
          (string_eq.beq_iff encoding "protobuf-base64").0 q,
          ground (arith, p),
          decode_all-AreDecoded decode xs es (ground (arith, h, q, p)),
        )
      ]
    ]

-- Two events count as of one run exactly where account, run and strategy group agree.
pub same_run_iff :
    (left right : EventEnvelope)
    → (same_run left right ≡ true) ↔ (
        (left.account_id ≡ right.account_id)
        × (left.run_id ≡ right.run_id)
        × (left.strategy_group_id ≡ right.strategy_group_id))
unfolding same_run
same_run_iff left right = ground (
  arith,
  string_eq.beq_iff left.account_id right.account_id,
  string_eq.beq_iff left.run_id right.run_id,
  string_eq.beq_iff left.strategy_group_id right.strategy_group_id,
)
