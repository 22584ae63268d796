-- ===== src/Trading/Confirm.antt =====
-- apps/web/src/operator/ConfirmOperation.tsx: the dialogue that confirms a prepared operation. A click
-- runs the function of the last render, with the ticket and the `busy` of that render.
use montlok_terminal.Prelude.{
  ℕ, String, ◌-◌, ◌+◌, ◌/◌, Bool, true, false, not, ◌||◌, List, [], ◌∷◌, Option, none, some,
  if◌then◌else◌, ◌==◌, string_eq, nat_eq, leb, includes,
}

-- A ticket of the server. `expires_at` is the first millisecond at which it has expired, where the
-- server gives a number; `starts_group` says that its operation starts a strategy group.
pub record Ticket : Type 0 where
  pub id : String
  pub expires_at : Option ℕ
  pub starts_group : Bool

-- `rendered` and `rendered_busy` are the values of the last render, `current_ticket.current` is the
-- first of them.
pub record Confirm : Type 0 where
  pub rendered : Option Ticket
  pub rendered_busy : Bool
  pub busy : Bool
  pub error : String
  pub now : ℕ
  pub dismissed : List String
  pub executing : Option String

abbrev pub new_confirm : Confirm
new_confirm = record {
  rendered = none;
  rendered_busy = false;
  busy = false;
  error = "";
  now = 0;
  dismissed = [];
  executing = none;
}

-- The calls that the dialogue makes: the request, and the functions that the page gave it.
pub data Call : Type 0 where
  -- `api('execute', { id, async })`
  execute : String → Bool → Call
  on_complete : String → Call
  on_close : Call

abbrev pub is_same : Option String → String → Bool
is_same none id = false
is_same (some own) id = own == id

abbrev pub is_shown : Option Ticket → String → Bool
is_shown none id = false
is_shown (some current) id = current.id == id

abbrev pub has_expired : Option ℕ → ℕ → Bool
has_expired none now = false
has_expired (some at) now = leb at now

-- `remaining`, in seconds, and whether it is 0
unfoldable pub remaining : Option ℕ → ℕ → Option ℕ
remaining none now = none
remaining (some at) now = some ((at - now + 999) / 1000)

unfoldable pub expired : Option ℕ → ℕ → Bool
expired at now = elim (remaining at now) [ none ↦ false | some seconds ↦ seconds == 0 ]

-- `close`, with the ticket of a render
unfoldable pub close : Confirm → Option Ticket → Confirm × List Call
close s none = (s, on_close ∷ [])
close s (some ticket) =
    if ticket.id == ""
    then (s, on_close ∷ [])
    else (record s { dismissed = ticket.id ∷ s.dismissed }, on_close ∷ [])

-- The test that stops `execute`; `date` is `Date.now()`. `currentTicket.current` is
-- the ticket of the last render.
abbrev pub is_held : Confirm → Ticket → ℕ → Bool
is_held s ticket date =
    ticket.id == ""
    || includes s.dismissed ticket.id
    || not (is_shown s.rendered ticket.id)
    || is_same s.executing ticket.id
    || s.rendered_busy
    || has_expired ticket.expires_at date

-- `execute`, up to its `await`, for the ticket of a render
unfoldable pub execute_ticket : Confirm → Option Ticket → ℕ → Confirm × List Call
execute_ticket s none date = (s, [])
execute_ticket s (some ticket) date = if is_held s ticket date then (s, []) else (
  record s { executing = some ticket.id; busy = true; error = "" },
  execute ticket.id ticket.starts_group ∷ [],
)

-- its `finally`
unfoldable pub finish : Confirm → Confirm
finish s = record s { busy = false; executing = none }

unfoldable pub succeed : Confirm → Ticket → Confirm × List Call
succeed s ticket =
    let closed = close s (some ticket) in (finish closed.0, on_complete ticket.id ∷ closed.1)

unfoldable pub fail : Confirm → String → Confirm × List Call
fail s reason = (finish (record s { error = reason }), [])

pub data Event : Type 0 where
  -- the page gives a ticket, which may be another one
  renders : Option Ticket → Event
  -- the effect of a new ticket, and the interval of one second
  shows : ℕ → Event
  ticks : ℕ → Event
  confirms : ℕ → Event
  cancels : Event
  -- the answer to the request for a ticket
  succeeds : Ticket → Event
  fails : Ticket → String → Event

unfoldable pub step : Confirm → Event → Confirm × List Call
step s (renders ticket) = (record s { rendered = ticket; rendered_busy = s.busy }, [])
step s (shows date) = (record s { error = ""; now = date }, [])
step s (ticks date) = (record s { now = date }, [])
step s (confirms date) = execute_ticket s s.rendered date
step s cancels = close s s.rendered
step s (succeeds ticket) = succeed s ticket
step s (fails ticket reason) = fail s reason
