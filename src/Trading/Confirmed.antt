-- ===== src/Trading/Confirmed.antt =====
-- apps/web/src/operator/ConfirmOperation.tsx: no ticket is executed twice.
use mathlib.Core.Path.{subst}
use montlok_terminal.Prelude.{
  ℕ, String, ◌≡◌, ◌⊎◌, refl, sym, ap, ◌∙◌, inl, inr, Bool, true, false, ◌||◌, List, [], ◌∷◌, ◌++◌,
  Option, none, some, arith, ◌==◌, string_eq, includes, Bool-cases, Option-cases,
}
use montlok_terminal.Trading.Confirm.{
  Ticket, Confirm, new_confirm, execute, close, execute_ticket, is_held, finish, succeed, fail,
  Event, renders, shows, ticks, confirms, cancels, succeeds, fails, step,
}
use montlok_terminal.Trading.Tickets.{World, happen, Mark, marks, log, is_once}

abbrev is_ticket : Option Ticket → String → Bool
is_ticket none id = false
is_ticket (some ticket) id = ticket.id == id

-- The request for the ticket waits; a click is held by the `busy` of its render, or it is for the
-- same ticket.
abbrev IsFlying : World → Ticket → Type 0
IsFlying w u =
    (w.asked ≡ u ∷ [])
    × (w.dialogue.executing ≡ some u.id)
    × (w.dialogue.busy ≡ true)
    × ((w.dialogue.rendered_busy || is_ticket w.dialogue.rendered u.id) ≡ true)

abbrev AreClosed : World → List String → Type 0
AreClosed w over =
    (id : String) → includes over id ≡ true → (id ≡ "") ⊎ (includes w.dialogue.dismissed id ≡ true)

pub data State (w : World) : Type 0 where
  idle : w.asked ≡ [] → State w
  flying : (u : Ticket) → IsFlying w u → State w

abbrev flight : List Ticket → Option String
flight [] = none
flight (a ∷ asked) = some a.id

-- What one event leaves to show: the marks that follow are judged in the new state.
abbrev Next : World → List String → Event → Type 0
Next w over e =
    (over' : List String) × State (happen w e)
    × AreClosed (happen w e) over'
    × ((ms : List Mark)
        → is_once (flight w.asked) over (marks w e ++ ms)
          ≡ is_once (flight (happen w e).asked) over' ms)

held_none : (s : Confirm) (date : ℕ) → execute_ticket s none date ≡ (s, [])
unfolding execute_ticket
held_none s date = refl

held_some :
    (s : Confirm) (ticket : Ticket) (date : ℕ)
    → is_held s ticket date ≡ true
    → execute_ticket s (some ticket) date ≡ (s, [])
unfolding execute_ticket
held_some s ticket date h = rw h refl

sent_some :
    (s : Confirm) (ticket : Ticket) (date : ℕ)
    → is_held s ticket date ≡ false
    → execute_ticket s (some ticket) date ≡ (
      record s { executing = some ticket.id; busy = true; error = "" },
      execute ticket.id ticket.starts_group ∷ [],
    )
unfolding execute_ticket
sent_some s ticket date h = rw h refl

happen_held :
    (w : World) (date : ℕ)
    → execute_ticket w.dialogue w.dialogue.rendered date ≡ (w.dialogue, [])
    → (happen w (confirms date) ≡ w) × (marks w (confirms date) ≡ [])
unfolding happen step
happen_held w date q = (ground (arith, q), ground (arith, q))

-- A click that sends nothing changes nothing.
next-held :
    (w : World) (over : List String) (date : ℕ)
    → execute_ticket w.dialogue w.dialogue.rendered date ≡ (w.dialogue, [])
    → State w
    → AreClosed w over
    → Next w over (confirms date)
next-held w over date q st c =
    let h = happen_held w date q in
    (
      over,
      subst State (sym h.0) st,
      subst (λ v. AreClosed v over) (sym h.0) c,
      λ ms. rw (h.0, h.1) refl,
    )

next-sent :
    (w : World) (over : List String) (t : Ticket) (date : ℕ)
    → w.asked ≡ []
    → w.dialogue.rendered ≡ some t
    → is_held w.dialogue t date ≡ false
    → AreClosed w over
    → Next w over (confirms date)
unfolding happen step
next-sent w over t date a q h c =
    let sent : execute_ticket w.dialogue w.dialogue.rendered date ≡ (
      record (w.dialogue) { executing = some t.id; busy = true; error = "" },
      execute t.id t.starts_group ∷ [],
    ) =
      ap (λ r. execute_ticket w.dialogue r date) q ∙ sent_some w.dialogue t date h in
    (
      over,
      flying t (
        ground (arith, sent, a, q),
        ground (arith, sent),
        ground (arith, sent),
        ground (arith, q, sent, string_eq.beq_iff t.id t.id),
      ),
      λ id i. ground (arith, sent, c id, i),
      λ ms. ground (arith, sent, a, q, h, c t.id, string_eq.beq_iff t.id ""),
    )

next-idle :
    (w : World) (over : List String) (e : Event) → w.asked ≡ [] → AreClosed w over → Next w over e
unfolding happen step close succeed fail finish
next-idle w over (renders ticket) a c = (over, idle a, c, λ ms. refl)
next-idle w over (shows date) a c = (over, idle a, c, λ ms. refl)
next-idle w over (ticks date) a c = (over, idle a, c, λ ms. refl)
next-idle w over (confirms date) a c = elim (Option-cases w.dialogue.rendered) [
  | inl q ↦
      next-held w over date
        (ap (λ r. execute_ticket w.dialogue r date) q ∙ held_none w.dialogue date) (idle a) c
  | inr (t, q) ↦ elim (Bool-cases (is_held w.dialogue t date)) [
    | inl h ↦
        next-held w over date
          (ap (λ r. execute_ticket w.dialogue r date) q ∙ held_some w.dialogue t date h) (idle a) c
    | inr h ↦ next-sent w over t date a q h c
  ]
]
next-idle w over cancels a c = elim (Option-cases w.dialogue.rendered) [
  | inl q ↦ (
    over,
    idle (ground (arith, a, q)),
    λ id i. ground (arith, c id, i, q),
    λ ms. ground (arith, a, q),
  )
  | inr (t, q) ↦ (
    t.id ∷ over,
    idle (ground (arith, a, q)),
    λ id i. ground (arith, c id, i, q, string_eq.beq_iff t.id id, string_eq.beq_iff t.id ""),
    λ ms. ground (arith, a, q),
  )
]
next-idle w over (succeeds ticket) a c =
    (over, idle (ground (arith, a)), λ id i. ground (arith, c id, i, a), λ ms. ground (arith, a))
next-idle w over (fails ticket reason) a c =
    (over, idle (ground (arith, a)), λ id i. ground (arith, c id, i, a), λ ms. ground (arith, a))

next-flying :
    (w : World) (u : Ticket) (over : List String) (e : Event)
    → IsFlying w u
    → AreClosed w over
    → Next w over e
unfolding happen step close succeed fail finish
next-flying w u over (renders ticket) f c =
    (over, flying u (f.0, f.1, f.2, ground (arith, f)), c, λ ms. refl)
next-flying w u over (shows date) f c = (over, flying u f, c, λ ms. refl)
next-flying w u over (ticks date) f c = (over, flying u f, c, λ ms. refl)
next-flying w u over (confirms date) f c = elim (Option-cases w.dialogue.rendered) [
  | inl q ↦
      next-held w over date
        (ap (λ r. execute_ticket w.dialogue r date) q ∙ held_none w.dialogue date) (flying u f) c
  | inr (t, q) ↦
      next-held w over date
        (ap (λ r. execute_ticket w.dialogue r date) q
          ∙ held_some w.dialogue t date
              (ground (arith, f, q, string_eq.beq_iff t.id u.id, string_eq.beq_iff u.id t.id)))
        (flying u f) c
]
next-flying w u over cancels f c = elim (Option-cases w.dialogue.rendered) [
  | inl q ↦ (
    over,
    flying u
        (ground (arith, f, q), ground (arith, f, q), ground (arith, f, q), ground (arith, f, q)),
    λ id i. ground (arith, c id, i, q),
    λ ms. ground (arith, f, q),
  )
  | inr (t, q) ↦ (
    t.id ∷ over,
    flying u
        (ground (arith, f, q), ground (arith, f, q), ground (arith, f, q), ground (arith, f, q)),
    λ id i. ground (arith, c id, i, q, string_eq.beq_iff t.id id, string_eq.beq_iff t.id ""),
    λ ms. ground (arith, f, q),
  )
]
next-flying w u over (succeeds ticket) f c = elim (Bool-cases (u.id == ticket.id)) [
  | inl q ↦ (
    ticket.id ∷ over,
    idle (ground (arith, f, q)),
    λ id i.
        ground
          (arith, c id, i, f, q, string_eq.beq_iff ticket.id id, string_eq.beq_iff ticket.id ""),
    λ ms. ground (arith, f, q),
  )
  | inr q ↦ (
    over,
    flying u
        (ground (arith, f, q), ground (arith, f, q), ground (arith, f, q), ground (arith, f, q)),
    λ id i. ground (arith, c id, i, f, q),
    λ ms. ground (arith, f, q),
  )
]
next-flying w u over (fails ticket reason) f c = elim (Bool-cases (u.id == ticket.id)) [
  | inl q ↦ (
    over,
    idle (ground (arith, f, q)),
    λ id i. ground (arith, c id, i, f, q),
    λ ms. ground (arith, f, q),
  )
  | inr q ↦ (
    over,
    flying u
        (ground (arith, f, q), ground (arith, f, q), ground (arith, f, q), ground (arith, f, q)),
    λ id i. ground (arith, c id, i, f, q),
    λ ms. ground (arith, f, q),
  )
]

next : (w : World) (over : List String) (e : Event) → State w → AreClosed w over → Next w over e
next w over e (idle a) c = next-idle w over e a c
next w over e (flying u f) c = next-flying w u over e f c

is_once_nil : (f : Option String) (over : List String) → is_once f over [] ≡ true
is_once_nil none over = refl
is_once_nil (some f) over = refl

abbrev pub new_world : World
new_world = record { dialogue = new_confirm; asked = [] }

log-IsOnce :
    (w : World) (over : List String) (es : List Event)
    → State w
    → AreClosed w over
    → is_once (flight w.asked) over (log w es) ≡ true
unfolding log
log-IsOnce w over [] st c = is_once_nil (flight w.asked) over
log-IsOnce w over (e ∷ es) st c =
    let n = next w over e st c in n.3 (log (happen w e) es) ∙ log-IsOnce (happen w e) n.0 es n.1 n.2

-- Whatever happens in whatever order, clicks, cancels, other tickets, answers and the passing of time:
-- at most one ticket is being executed at any time, and no ticket is sent again once its execution has
-- succeeded or it was given up.
pub run-IsOnce : (es : List Event) → is_once none [] (log new_world es) ≡ true
run-IsOnce es = log-IsOnce new_world [] es (idle refl) (λ id i. absurd (ground (arith, i)))
