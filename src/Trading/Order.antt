-- ===== src/Trading/Order.antt =====
-- apps/web/src/operator/OrderTicket.tsx: the form of a spot order. A state is what is rendered: a
-- change of a field, with the effects that follow it, is one step. `T` is the ticket that the server
-- prepares, an argument.
use montlok_terminal.Prelude.{
  String, Bool, true, false, not, ◌&&◌, List, [], ◌∷◌, Option, none, some, if◌then◌else◌, ◌==◌,
  string_eq,
}
use montlok_terminal.Prelude.Int.{ℤ, lebℤ}
use montlok_terminal.Prelude.Numbers.{Numbers}
use montlok_terminal.Json.{Json}

pub data Side : Type 0 where
  buy sell : Side

pub data OrderType : Type 0 where
  limit market : OrderType

-- The values that `context` is made of.
pub record Context : Type 0 where
  pub instrument : String
  pub epoch : ℤ
  pub side : Side
  pub order_type : OrderType
  pub quantity : String
  pub price : String

abbrev pub same_side : Side → Side → Bool
same_side buy buy = true
same_side sell sell = true
same_side _ _ = false

abbrev pub same_type : OrderType → OrderType → Bool
same_type limit limit = true
same_type market market = true
same_type _ _ = false

abbrev pub same_epoch : ℤ → ℤ → Bool
same_epoch a b = lebℤ a b && lebℤ b a

-- Two contexts have one text.
abbrev pub same_context : Context → Context → Bool
same_context a b =
    a.instrument == b.instrument
    && same_epoch a.epoch b.epoch
    && same_side a.side b.side
    && same_type a.order_type b.order_type
    && a.quantity == b.quantity
    && a.price == b.price

pub record OrderTicket (T : Type 0) : Type 0 where
  pub context : Context
  pub ticket : Option T
  pub result : Option Json
  pub error : String
  pub busy : Bool

-- The arguments of `api('prepare', …)`; `px` only of a limit order.
abbrev side_name : Side → String
side_name buy = "buy"
side_name sell = "sell"

abbrev type_name : OrderType → String
type_name limit = "limit"
type_name market = "market"

abbrev pub price_argument : OrderType → String → List (String × String)
price_argument limit price = ("px", price) ∷ []
price_argument market price = []

unfoldable pub order_arguments : Context → List (String × String)
order_arguments c =
    ("instId", c.instrument)
    ∷ ("tdMode", "cash")
    ∷ ("tgtCcy", "base_ccy")
    ∷ ("stpMode", "cancel_taker")
    ∷ ("side", side_name c.side)
    ∷ ("ordType", type_name c.order_type)
    ∷ ("sz", c.quantity)
    ∷ price_argument c.order_type c.price

-- A text of the form as a positive number: `Number.isFinite(Number(text)) && Number(text) > 0`
module _ (N : Type 0) ⦃n : Numbers N⦄ where
  abbrev pub is_positive : String → Bool
  is_positive text =
      n.is_finite (n.number (some (Json.string text)))
      && n.lt (n.of_nat 0) (n.number (some (Json.string text)))

  abbrev pub needs_price : OrderType → String → Bool
  needs_price limit price = not (is_positive price)
  needs_price market price = false

  -- the two errors that `prepare` throws
  unfoldable pub refusal : Context → Option String
  refusal c =
      if not (is_positive c.quantity)
      then some "输入交易数量"
      else if needs_price c.order_type c.price
      then some "输入委托价格"
      else none

-- whether the button that calls `prepare` is enabled
unfoldable pub can_submit : Bool → Bool → String → Bool
can_submit can_operate available mode = can_operate && available && mode == "live"

pub data Event (T : Type 0) : Type 0 where
  sets_side : Side → Event T
  sets_type : OrderType → Event T
  sets_quantity : String → Event T
  sets_price : String → Event T
  -- new properties
  shows : String → ℤ → Event T
  prepares : Event T
  -- the answer to a request that was made in a context
  prepared : Context → T → Event T
  refused : String → Event T
  closes : Event T
  completes : Json → Event T

-- The requests and calls that a step makes.
pub data Call : Type 0 where
  prepare : List (String × String) → Call
  refresh : Call

module _ {T : Type 0} where
  -- a new context, and the effect `[context]`
  unfoldable pub set_context : OrderTicket T → Context → OrderTicket T
  set_context s c = record s {
    context = c;
    ticket = if same_context s.context c then s.ticket else none;
  }

  -- new properties, and the effect `[instrument, epoch]`
  unfoldable pub show : OrderTicket T → String → ℤ → OrderTicket T
  show s instrument epoch =
      if s.context.instrument == instrument && same_epoch s.context.epoch epoch
      then s
      else record s {
        context = record (s.context) {
          instrument = instrument;
          epoch = epoch;
          quantity = "";
          price = "";
        };
        ticket = none;
        result = none;
        error = "";
      }

module _ {T : Type 0} (N : Type 0) ⦃n : Numbers N⦄ where
  unfoldable pub start_prepare : OrderTicket T → OrderTicket T × List Call
  start_prepare s = elim (refusal N s.context) [
    | some error ↦ (record s { error = error; result = none; busy = false }, [])
    | none ↦ (
      record s { error = ""; result = none; busy = true },
      prepare (order_arguments s.context) ∷ [],
    )
  ]

  unfoldable pub step : OrderTicket T → Event T → OrderTicket T × List Call
  step s (sets_side side) = (set_context s (record (s.context) { side = side }), [])
  step s (sets_type type) = (set_context s (record (s.context) { order_type = type }), [])
  step s (sets_quantity text) = (set_context s (record (s.context) { quantity = text }), [])
  step s (sets_price text) = (set_context s (record (s.context) { price = text }), [])
  step s (shows instrument epoch) = (show s instrument epoch, [])
  step s prepares = start_prepare s
  step s (prepared context ticket) = (
    record s {
      busy = false;
      ticket = if same_context s.context context then some ticket else s.ticket;
    },
    [],
  )
  step s (refused error) = (record s { busy = false; error = error }, [])
  step s closes = (record s { ticket = none }, [])
  step s (completes value) = (record s { result = some value }, refresh ∷ [])

  unfoldable pub run : OrderTicket T → List (Event T) → OrderTicket T
  run s [] = s
  run s (e ∷ es) = run (step s e).0 es
