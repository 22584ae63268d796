-- ===== src/Stream/Protocol.antt =====
-- packages/sdk-ts/src/generated/montlok/v2/terminal.ts: the message types that the client reads.
-- An enumeration's `unrecognized` stands for every number that it does not list. A `uint64` is a
-- natural number and an `int64` an integer; a `DecimalValue` holds its text, which nothing computes.
use montlok_terminal.Prelude.{ℕ, String, Bool, List, Option}
use montlok_terminal.Prelude.Int.{ℤ}

pub data EventType : Type 0 where
  event_type_unspecified run_state_changed market_quote order_book_updated : EventType
  model_inference_completed signal_generated target_position_changed risk_decision : EventType
  order_submitted order_accepted order_rejected order_cancel_requested order_canceled : EventType
  route_updated fill_received position_updated pnl_updated alert_raised alert_cleared : EventType
  operation_receipt_updated unrecognized : EventType

pub data RunState : Type 0 where
  run_state_unspecified run_preparing run_running run_paused run_reducing : RunState
  run_stopping run_stopped run_failed unrecognized : RunState

pub data Side : Type 0 where
  side_unspecified buy sell unrecognized : Side

pub data OrderState : Type 0 where
  order_state_unspecified order_pending_submit order_accepted_by_venue : OrderState
  order_partially_filled order_filled order_pending_cancel order_canceled_by_venue : OrderState
  order_rejected_by_venue order_expired unrecognized : OrderState

pub data RiskOutcome : Type 0 where
  risk_outcome_unspecified risk_accepted risk_clipped risk_rejected unrecognized : RiskOutcome

pub record DecimalValue : Type 0 where
  pub value : String

pub record TerminalContext : Type 0 where
  pub account_id : String
  pub strategy_group_id : String
  pub run_id : String
  pub instrument_id : String
  pub model_release_id : String
  pub signal_version : String
  pub time_from_ns : ℤ
  pub time_to_ns : ℤ

pub record RunStateChanged : Type 0 where
  pub previous : RunState
  pub current : RunState
  pub reason : String
  pub node_id : String

pub record MarketQuote : Type 0 where
  pub bid_price : Option DecimalValue
  pub bid_size : Option DecimalValue
  pub ask_price : Option DecimalValue
  pub ask_size : Option DecimalValue
  pub last_price : Option DecimalValue
  pub venue_time_ns : ℤ

pub record BookLevel : Type 0 where
  pub price : Option DecimalValue
  pub size : Option DecimalValue
  pub count : ℕ

pub record OrderBookUpdated : Type 0 where
  pub bids : List BookLevel
  pub asks : List BookLevel
  pub venue_sequence : ℕ
  pub venue_time_ns : ℤ

pub record ModelInferenceCompleted : Type 0 where
  pub model_inference_id : String
  pub model_release_id : String
  pub model_hash : String
  pub feature_version : String
  pub prediction : Option DecimalValue
  pub latency_ns : ℤ
  pub input_as_of_ns : ℤ

pub record SignalGenerated : Type 0 where
  pub signal_id : String
  pub model_inference_id : String
  pub signal_version : String
  pub value : Option DecimalValue
  pub confidence : Option DecimalValue

pub record TargetPositionChanged : Type 0 where
  pub decision_id : String
  pub signal_id : String
  pub target_quantity : Option DecimalValue
  pub target_weight : Option DecimalValue
  pub previous_quantity : Option DecimalValue

pub record RiskDecision : Type 0 where
  pub risk_decision_id : String
  pub decision_id : String
  pub outcome : RiskOutcome
  pub rule_id : String
  pub message : String
  pub requested_quantity : Option DecimalValue
  pub approved_quantity : Option DecimalValue

pub record OrderEvent : Type 0 where
  pub operation_id : String
  pub risk_decision_id : String
  pub client_order_id : String
  pub venue_order_id : String
  pub side : Side
  pub order_type : String
  pub quantity : Option DecimalValue
  pub price : Option DecimalValue
  pub state : OrderState
  pub reject_code : String
  pub reject_reason : String

pub record RouteUpdated : Type 0 where
  pub route_id : String
  pub client_order_id : String
  pub venue_order_id : String
  pub venue : String
  pub state : OrderState
  pub venue_sequence : ℕ

pub record FillReceived : Type 0 where
  pub trade_id : String
  pub route_id : String
  pub venue_order_id : String
  pub side : Side
  pub quantity : Option DecimalValue
  pub price : Option DecimalValue
  pub fee : Option DecimalValue
  pub fee_currency : String
  pub liquidity : String
  pub venue_time_ns : ℤ

pub record PositionUpdated : Type 0 where
  pub position_event_id : String
  pub trade_id : String
  pub quantity : Option DecimalValue
  pub average_price : Option DecimalValue
  pub market_value : Option DecimalValue
  pub target_quantity : Option DecimalValue
  pub target_weight : Option DecimalValue
  pub actual_weight : Option DecimalValue

pub record PnlUpdated : Type 0 where
  pub pnl_event_id : String
  pub position_event_id : String
  pub nav : Option DecimalValue
  pub realized_pnl : Option DecimalValue
  pub unrealized_pnl : Option DecimalValue
  pub fees : Option DecimalValue
  pub drawdown_percent : Option DecimalValue
  pub valuation_at_ns : ℤ
  pub market_source : String
  pub accounting_basis : String
  pub calculation_version : String
  pub source_event_seq : ℕ

pub record AlertChanged : Type 0 where
  pub alert_id : String
  pub severity : String
  pub code : String
  pub summary : String
  pub detail : String
  pub active : Bool

pub record OperationReceiptUpdated : Type 0 where
  pub operation_id : String
  pub status : String
  pub action : String
  pub reason : String
  pub expires_at_ns : ℤ

-- the `payload` of an envelope, by its `$case`
pub data Payload : Type 0 where
  run_state_changed : RunStateChanged → Payload
  market_quote : MarketQuote → Payload
  order_book_updated : OrderBookUpdated → Payload
  model_inference_completed : ModelInferenceCompleted → Payload
  signal_generated : SignalGenerated → Payload
  target_position_changed : TargetPositionChanged → Payload
  risk_decision : RiskDecision → Payload
  order_event : OrderEvent → Payload
  route_updated : RouteUpdated → Payload
  fill_received : FillReceived → Payload
  position_updated : PositionUpdated → Payload
  pnl_updated : PnlUpdated → Payload
  alert_changed : AlertChanged → Payload
  operation_receipt_updated : OperationReceiptUpdated → Payload

pub record EventEnvelope : Type 0 where
  pub schema_version : ℕ
  pub stream : String
  pub stream_seq : ℕ
  pub snapshot_seq : ℕ
  pub event_id : String
  pub event_type : EventType
  pub occurred_at_ns : ℤ
  pub received_at_ns : ℤ
  pub account_id : String
  pub strategy_group_id : String
  pub run_id : String
  pub instrument_id : String
  pub correlation_id : String
  pub causation_id : String
  pub source : String
  pub source_payload_json : List ℕ
  pub payload : Option Payload

pub record ResumePosition : Type 0 where
  pub stream : String
  pub last_stream_seq : ℕ

pub record ClientHello : Type 0 where
  pub protocol_version : ℕ
  pub device_id : String
  pub resume_positions : List ResumePosition

pub record Subscribe : Type 0 where
  pub request_id : String
  pub topics : List String
  pub context : Option TerminalContext
  pub fields : List String
  pub conflate_ms : ℕ

pub record SnapshotBegin : Type 0 where
  pub subscription_id : String
  pub snapshot_seq : ℕ
  pub arrow_schema : List ℕ
  pub watermarks : List ResumePosition

pub record SnapshotBatch : Type 0 where
  pub subscription_id : String
  pub arrow_ipc : List ℕ
  pub row_count : ℕ

pub record SnapshotEnd : Type 0 where
  pub subscription_id : String
  pub snapshot_seq : ℕ
  pub last_stream_seq : ℕ
  pub watermarks : List ResumePosition

pub record Heartbeat : Type 0 where
  pub server_time_ns : ℤ
  pub last_stream_seq : List (String × ℕ)

pub record SequenceGap : Type 0 where
  pub stream : String
  pub expected : ℕ
  pub received : ℕ
  pub replay_available : Bool

pub record StreamError : Type 0 where
  pub code : String
  pub retryable : Bool
  pub detail : String

-- the `message` of a server message, by its `$case`
pub data Message : Type 0 where
  snapshot_begin : SnapshotBegin → Message
  snapshot_batch : SnapshotBatch → Message
  snapshot_end : SnapshotEnd → Message
  event : EventEnvelope → Message
  heartbeat : Heartbeat → Message
  sequence_gap : SequenceGap → Message
  error : StreamError → Message

pub record ServerMessage : Type 0 where
  pub message : Option Message
