-- ===== src/Trading/Tickets.antt =====
-- apps/web/src/operator/ConfirmOperation.tsx: the dialogue with the server, and what it shows of the tickets.
use montlok_terminal.Prelude.{
  filter, String, Bool, true, false, not, ◌&&◌, ◌||◌, List, [], ◌∷◌, ◌++◌, Option, none, some,
  if◌then◌else◌, ◌==◌, string_eq, includes,
}
use montlok_terminal.Trading.Confirm.{
  Ticket, Confirm, Call, execute, Event, confirms, cancels, succeeds, fails, step,
}

-- The dialogue with the server: the requests for tickets that are not answered yet.
pub record World : Type 0 where
  pub dialogue : Confirm
  pub asked : List Ticket

-- Only a request that was sent is answered.
abbrev pub is_asked : List Ticket → Ticket → Bool
is_asked [] ticket = false
is_asked (a ∷ asked) ticket = a.id == ticket.id || is_asked asked ticket

abbrev pub is_answered : World → Event → Bool
is_answered w (succeeds ticket) = is_asked w.asked ticket
is_answered w (fails ticket reason) = is_asked w.asked ticket
is_answered w _ = true

abbrev pub asks : List Call → Option Ticket → List Ticket
asks [] rendered = []
asks (execute id async ∷ calls) (some ticket) = ticket ∷ []
asks (call ∷ calls) rendered = []

abbrev pub answers : Event → List Ticket → List Ticket
answers (succeeds ticket) asked = filter (λ a. not (a.id == ticket.id)) asked
answers (fails ticket reason) asked = filter (λ a. not (a.id == ticket.id)) asked
answers _ asked = asked

unfoldable pub happen : World → Event → World
happen w e =
    if is_answered w e
    then record {
      dialogue = (step w.dialogue e).0;
      asked = asks (step w.dialogue e).1 w.dialogue.rendered ++ answers e w.asked;
    }
    else w

pub data Mark : Type 0 where
  sent done failed given_up : String → Mark

-- What an event shows of the tickets.
abbrev pub ticket_marks : (String → Mark) → Option Ticket → List Mark
ticket_marks mark none = []
ticket_marks mark (some ticket) = mark ticket.id ∷ []

abbrev pub sent_marks : List Call → List Mark
sent_marks (execute id async ∷ calls) = sent id ∷ []
sent_marks _ = []

abbrev pub marks : World → Event → List Mark
marks w (confirms date) = sent_marks (step w.dialogue (confirms date)).1
marks w cancels = ticket_marks given_up w.dialogue.rendered
marks w (succeeds ticket) = if is_asked w.asked ticket then done ticket.id ∷ [] else []
marks w (fails ticket reason) = if is_asked w.asked ticket then failed ticket.id ∷ [] else []
marks w _ = []

unfoldable pub log : World → List Event → List Mark
log w [] = []
log w (e ∷ es) = marks w e ++ log (happen w e) es

-- One request at a time, and none for a ticket that was executed or given up. `flying` is the request
-- that is not answered, `over` the tickets that must not be sent.
abbrev pub is_once : Option String → List String → List Mark → Bool
is_once flying over [] = true
is_once none over (sent id ∷ ms) = not (includes over id) && is_once (some id) over ms
is_once (some f) over (done id ∷ ms) = f == id && is_once none (id ∷ over) ms
is_once (some f) over (failed id ∷ ms) = f == id && is_once none over ms
is_once flying over (given_up id ∷ ms) = is_once flying (id ∷ over) ms
is_once _ over _ = false
