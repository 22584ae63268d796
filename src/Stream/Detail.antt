-- ===== src/Stream/Detail.antt =====
-- apps/web/src/operator/eventDetailModel.ts: the fields of an event as the inspector lists them.
-- `clock` is the formatter of the language for a time of day, given whole seconds. A number that an
-- enumeration does not list has no name, so a field may have no value.
use Prim.Native.String.{String, ◌++◌ as ◌+s◌}
use montlok_terminal.Prelude.{
  ℕ, ◌-◌, ◌/◌, ◌%◌, Bool, not, ◌&&◌, ◌||◌, List, [], ◌∷◌, ◌++◌, Option, none, some, if◌then◌else◌,
  ltb, ◌==◌, nat_eq, string_eq, length,
}
use montlok_terminal.Prelude.Int.{ℤ, pos, negsuc}
use montlok_terminal.Prelude.Decimal.{decimal}
use montlok_terminal.Stream.Protocol.{
  EventType, Side, OrderState, DecimalValue, OrderEvent, FillReceived, RouteUpdated, Payload,
  EventEnvelope,
}
use montlok_terminal.Stream.Store.{Result, ok, err}

-- `padStart(width, '0')` of the digits of a number, where the bound is 10 ^ (width - 1): a number
-- below it gets one zero for each digit that is missing.
abbrev padded : List ℕ → ℕ → String
padded [] n = decimal n
padded (bound ∷ bounds) n = if ltb n bound then "0" +s padded bounds n else decimal n

abbrev pub pad_six : ℕ → String
pad_six n = padded (100000 ∷ 10000 ∷ 1000 ∷ 100 ∷ 10 ∷ []) n

abbrev pub pad_nine : ℕ → String
pad_nine n = padded (100000000 ∷ 10000000 ∷ 1000000 ∷ 100000 ∷ 10000 ∷ 1000 ∷ 100 ∷ 10 ∷ []) n

unfoldable pub event_time : (ℕ → String) → ℤ → String
event_time clock (negsuc n) = "—"
event_time clock (pos n) =
    if n == 0 then "—" else clock (n / 1000000000) +s "." +s pad_nine (n % 1000000000)

unfoldable pub elapsed_ms : ℤ → ℤ → String
elapsed_ms (pos start) (pos end) =
    if start == 0 || ltb end start
    then "—"
    else decimal ((end - start) / 1000000) +s "." +s pad_six ((end - start) % 1000000)
elapsed_ms _ _ = "—"

unfoldable pub event_label : EventType → Option String
event_label EventType.order_submitted = some "委托提交"
event_label EventType.order_accepted = some "委托确认"
event_label EventType.order_rejected = some "委托拒绝"
event_label EventType.order_cancel_requested = some "撤单提交"
event_label EventType.order_canceled = some "撤单确认"
event_label EventType.fill_received = some "成交"
event_label EventType.position_updated = some "持仓更新"
event_label EventType.pnl_updated = some "收益更新"
event_label EventType.run_state_changed = some "运行状态"
event_label EventType.model_inference_completed = some "模型推理"
event_label EventType.signal_generated = some "信号"
event_label EventType.risk_decision = some "风控"
event_label EventType.target_position_changed = some "目标更新"
event_label EventType.route_updated = some "路由更新"
event_label EventType.alert_raised = some "告警"
event_label EventType.alert_cleared = some "告警恢复"
event_label EventType.operation_receipt_updated = some "操作回执"
event_label EventType.event_type_unspecified = some "EVENT_TYPE_UNSPECIFIED"
event_label EventType.market_quote = some "MARKET_QUOTE"
event_label EventType.order_book_updated = some "ORDER_BOOK_UPDATED"
event_label EventType.unrecognized = none

-- `OrderState[…]`
abbrev order_state_name : OrderState → Option String
order_state_name OrderState.order_state_unspecified = some "ORDER_STATE_UNSPECIFIED"
order_state_name OrderState.order_pending_submit = some "ORDER_PENDING_SUBMIT"
order_state_name OrderState.order_accepted_by_venue = some "ORDER_ACCEPTED_BY_VENUE"
order_state_name OrderState.order_partially_filled = some "ORDER_PARTIALLY_FILLED"
order_state_name OrderState.order_filled = some "ORDER_FILLED"
order_state_name OrderState.order_pending_cancel = some "ORDER_PENDING_CANCEL"
order_state_name OrderState.order_canceled_by_venue = some "ORDER_CANCELED_BY_VENUE"
order_state_name OrderState.order_rejected_by_venue = some "ORDER_REJECTED_BY_VENUE"
order_state_name OrderState.order_expired = some "ORDER_EXPIRED"
order_state_name OrderState.unrecognized = none

abbrev side_name : Side → String
side_name Side.buy = "买"
side_name Side.sell = "卖"
side_name _ = "—"

abbrev decimal_text : Option DecimalValue → String
decimal_text none = ""
decimal_text (some d) = d.value

abbrev pub Field : Type 0
Field = String × Option String

abbrev text_field : String → String → Field
text_field name value = (name, some value)

abbrev order_fields : OrderEvent → List Field
order_fields o =
    text_field "方向" (side_name o.side)
    ∷ text_field "价格" (decimal_text o.price)
    ∷ text_field "数量" (decimal_text o.quantity)
    ∷ ("订单状态", order_state_name o.state)
    ∷ text_field "客户订单号" o.client_order_id
    ∷ text_field "交易所订单号" o.venue_order_id
    ∷ text_field "操作编号" o.operation_id
    ∷ text_field "风控编号" o.risk_decision_id
    ∷ text_field "拒单原因" o.reject_reason
    ∷ []

abbrev fee_text : FillReceived → String
fee_text f = elim f.fee [ none ↦ "" | some d ↦ d.value +s " " +s f.fee_currency ]

abbrev fill_fields : FillReceived → List Field
fill_fields f =
    text_field "方向" (side_name f.side)
    ∷ text_field "成交价格" (decimal_text f.price)
    ∷ text_field "成交数量" (decimal_text f.quantity)
    ∷ text_field "费用" (fee_text f)
    ∷ text_field "流动性" f.liquidity
    ∷ text_field "Route" f.route_id
    ∷ text_field "交易所订单号" f.venue_order_id
    ∷ text_field "成交编号" f.trade_id
    ∷ []

abbrev route_fields : RouteUpdated → List Field
route_fields r =
    text_field "Route" r.route_id
    ∷ text_field "客户订单号" r.client_order_id
    ∷ text_field "交易所订单号" r.venue_order_id
    ∷ text_field "交易场所" r.venue
    ∷ ("订单状态", order_state_name r.state)
    ∷ []

unfoldable pub payload_fields : Option Payload → List Field
payload_fields (some (Payload.order_event o)) = order_fields o
payload_fields (some (Payload.fill_received f)) = fill_fields f
payload_fields (some (Payload.route_updated r)) = route_fields r
payload_fields _ = []

unfoldable pub event_fields : (ℕ → String) → EventEnvelope → List Field
event_fields clock e =
    ("事件", event_label e.event_type)
      ∷ text_field "发生时间 / UTC+8" (event_time clock e.occurred_at_ns)
      ∷ text_field "接收时间 / UTC+8" (event_time clock e.received_at_ns)
      ∷ text_field "采集耗时 / ms" (elapsed_ms e.occurred_at_ns e.received_at_ns)
      ∷ text_field "账户" e.account_id
      ∷ text_field "策略组" e.strategy_group_id
      ∷ text_field "运行实例" e.run_id
      ∷ text_field "品种" e.instrument_id
      ∷ payload_fields e.payload
    ++ text_field "Correlation ID" e.correlation_id
      ∷ text_field "Causation ID" e.causation_id
      ∷ text_field "事件编号" e.event_id
      ∷ text_field "来源" e.source
      ∷ text_field "数据流" e.stream
      ∷ text_field "流序号" (decimal e.stream_seq)
      ∷ text_field "协议版本" (decimal e.schema_version)
      ∷ []

-- The map over the encoded events: the first that fails to decode ends it.
unfoldable pub decode_all :
    (String → Result EventEnvelope) → List String → Result (List EventEnvelope)
decode_all decode [] = ok []
decode_all decode (x ∷ xs) =
    let rest = decode_all decode xs in
    elim (decode x) [
      | err message ↦ err message
      | ok e ↦ elim rest [ err message ↦ err message | ok es ↦ ok (e ∷ es) ]
    ]

-- `decode` reads base64 and decodes the bytes; `events` is `none` where it is no array
unfoldable pub decode_related :
    (String → Result EventEnvelope) → String → Option (List String) → Result (List EventEnvelope)
decode_related decode encoding none = err "关联事件响应格式不完整"
decode_related decode encoding (some events) =
    if not (encoding == "protobuf-base64") || ltb 2048 (length events)
    then err "关联事件响应格式不完整"
    else decode_all decode events

unfoldable pub same_run : EventEnvelope → EventEnvelope → Bool
same_run left right =
    left.account_id == right.account_id
    && left.run_id == right.run_id
    && left.strategy_group_id == right.strategy_group_id
