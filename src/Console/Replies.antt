-- ===== src/Console/Replies.antt =====
-- apps/web/src/operator/api.ts: where the value of a request comes from.
use montlok_terminal.Prelude.{
  String, ◌≡◌, ◌∙◌, sym, refl, ◌⊎◌, inl, inr, Bool, true, false, List, [], ◌∷◌, Option, some, arith,
  ◌==◌, string_eq, nat_eq, Option-cases, Bool-cases,
}
use montlok_terminal.Json.{Json}
use montlok_terminal.Console.Session.{
  SessionInfo, Shared, Promised, resolved, rejected, ensure_session, is_ok,
}
use montlok_terminal.Console.Request.{
  Stage, session_awaited, response_awaited, refresh_awaited, finished, Request, Moved, send,
  start_request, session_ready, Answer, broken, response, refreshed_ready, refresh, value_ready,
  response_ready, forget, body_id, unknown_receipt,
}
use montlok_terminal.Console.Requests.{Event, session_arrives, answer_arrives, others, step, run}

abbrev pub is_open : Stage → Bool
is_open (finished reply) = false
is_open _ = true

-- An answer with a status of success whose text is the JSON `v`; or a lost answer to an action, with
-- the receipt that says so under the id of the action.
abbrev pub Gives : (String → Option Json) → String → Option Json → Json → Answer → Type 0
Gives parse path body v (response status text) = (is_ok status ≡ true) × (parse text ≡ some v)
Gives parse path body v (broken reason) =
    (path ≡ "execute") × (id : String) × (body_id body ≡ some id) × (v ≡ unknown_receipt id)

abbrev pub Comes : (String → Option Json) → String → Option Json → Json → List Event → Type 0
Comes parse path body v [] = true ≡ false
Comes parse path body v (answer_arrives a ∷ es) =
    Gives parse path body v a ⊎ Comes parse path body v es
Comes parse path body v (_ ∷ es) = Comes parse path body v es

-- A stage that is no value.
abbrev Unvalued : Stage → Json → Type 0
Unvalued stage v = stage ≡ finished (resolved v) → true ≡ false

start_request-Unvalued :
    (s : Shared) (r : Request) (v : Json) → Unvalued (start_request s r).1.stage v
unfolding start_request send ensure_session
start_request-Unvalued s r v h = ground (arith, h)

refreshed_ready-Unvalued :
    (s : Shared) (r : Request) (identity : SessionInfo) (p : Promised SessionInfo) (v : Json)
    → Unvalued (refreshed_ready s r identity p).1.stage v
unfolding refreshed_ready
refreshed_ready-Unvalued s r identity (rejected why) v h = ground arith
refreshed_ready-Unvalued s r identity (resolved info) v h =
    ground (arith, start_request-Unvalued s (record r { retried = true }) v)

refresh-Unvalued :
    (s : Shared) (r : Request) (identity : SessionInfo) (v : Json)
    → Unvalued (refresh s r identity).1.stage v
unfolding refresh ensure_session
refresh-Unvalued s r identity v h =
    let s₁ = forget s identity in
    elim (Bool-cases s₁.starting) [
      | inl q ↦ ground (arith, q)
      | inr q ↦ elim (Option-cases s₁.session) [
        | inl p ↦ ground (arith, q, p)
        | inr (info, p) ↦
            ground (arith, q, p, refreshed_ready-Unvalued s₁ r identity (resolved info) v)
      ]
    ]

response_ready-Gives :
    (parse : String → Option Json) (s : Shared) (r : Request) (identity : SessionInfo) (a : Answer)
    (v : Json)
    → (response_ready parse s r identity a).1.stage ≡ finished (resolved v)
    → Gives parse r.path r.body v a
unfolding response_ready value_ready
response_ready-Gives parse s r identity (broken reason) v h = elim (Option-cases (body_id r.body)) [
  | inl q ↦ ground (arith, q, h)
  | inr (id, q) ↦ elim (Bool-cases (r.path == "execute")) [
    | inl p ↦ ((string_eq.beq_iff r.path "execute").0 p, id, q, ground (arith, q, p, h))
    | inr p ↦ absurd (ground (arith, q, p, h))
  ]
]
response_ready-Gives parse s r identity (response status text) v h =
    elim (Option-cases (parse text)) [
      | inl q ↦ ground (arith, q, h)
      | inr (w, q) ↦ ground (arith, q, h, refresh-Unvalued s r identity v)
    ]

-- One step: a request that is still open becomes a value only by an answer that gives it.
step-Gives :
    (parse : String → Option Json) (s : Shared) (path : String) (body : Option Json)
    (retried : Bool) (stage : Stage) (e : Event) (v : Json) (es : List Event)
    → let r : Request = record { path = path; body = body; retried = retried; stage = stage } in
      is_open stage ≡ true
      → (step parse s r e).1.stage ≡ finished (resolved v)
      → Comes parse path body v (e ∷ es)
unfolding step session_ready send
step-Gives parse s path body retried stage (others s') v es o h = absurd (ground (arith, o, h))
step-Gives parse s path body retried session_awaited (session_arrives (rejected why)) v es o h =
    absurd (ground (arith, h))
step-Gives parse s path body retried session_awaited (session_arrives (resolved info)) v es o h =
    absurd (ground (arith, h))
step-Gives parse s path body retried (refresh_awaited identity) (session_arrives p) v es o h =
    absurd (ground (arith, refreshed_ready-Unvalued s _ identity p v h))
step-Gives parse s path body retried (response_awaited identity) (session_arrives p) v es o h =
    absurd (ground (arith, h))
step-Gives parse s path body retried (finished reply) (session_arrives p) v es o h =
    absurd (ground (arith, o))
step-Gives parse s path body retried (response_awaited identity) (answer_arrives a) v es o h =
    inl (response_ready-Gives parse s _ identity a v h)
step-Gives parse s path body retried session_awaited (answer_arrives a) v es o h =
    absurd (ground (arith, h))
step-Gives parse s path body retried (refresh_awaited identity) (answer_arrives a) v es o h =
    absurd (ground (arith, h))
step-Gives parse s path body retried (finished reply) (answer_arrives a) v es o h =
    absurd (ground (arith, o))

-- A request keeps what it asks.
abbrev Asks : Request → Moved → Type 0
Asks r m = (m.1.path ≡ r.path) × (m.1.body ≡ r.body)

start_request-Asks : (s : Shared) (r : Request) → Asks r (start_request s r)
unfolding start_request send ensure_session
start_request-Asks s r = ground arith

refreshed_ready-Asks :
    (s : Shared) (r : Request) (identity : SessionInfo) (p : Promised SessionInfo)
    → Asks r (refreshed_ready s r identity p)
unfolding refreshed_ready
refreshed_ready-Asks s r identity (rejected why) = ground arith
refreshed_ready-Asks s r identity (resolved info) =
    ground (arith, start_request-Asks s (record r { retried = true }))

refresh-Asks : (s : Shared) (r : Request) (identity : SessionInfo) → Asks r (refresh s r identity)
unfolding refresh ensure_session
refresh-Asks s r identity =
    let s₁ = forget s identity in
    elim (Bool-cases s₁.starting) [
      | inl q ↦ ground (arith, q)
      | inr q ↦ elim (Option-cases s₁.session) [
        | inl p ↦ ground (arith, q, p)
        | inr (info, p) ↦ ground (arith, q, p, refreshed_ready-Asks s₁ r identity (resolved info))
      ]
    ]

response_ready-Asks :
    (parse : String → Option Json) (s : Shared) (r : Request) (identity : SessionInfo) (a : Answer)
    → Asks r (response_ready parse s r identity a)
unfolding response_ready value_ready
response_ready-Asks parse s r identity (broken reason) = elim (Option-cases (body_id r.body)) [
  | inl q ↦ ground (arith, q)
  | inr (id, q) ↦ ground (arith, q)
]
response_ready-Asks parse s r identity (response status text) = elim (Option-cases (parse text)) [
  | inl q ↦ ground (arith, q)
  | inr (w, q) ↦ ground (arith, q, refresh-Asks s r identity)
]

step-Asks :
    (parse : String → Option Json) (s : Shared) (r : Request) (e : Event)
    → Asks r (step parse s r e)
unfolding step session_ready send
step-Asks parse s r (others s') = (refl, refl)
step-Asks parse s r (session_arrives (rejected why)) = grind (arith, refreshed_ready-Asks)
step-Asks parse s r (session_arrives (resolved info)) = grind (arith, refreshed_ready-Asks)
step-Asks parse s r (answer_arrives a) = grind (arith, response_ready-Asks)

-- A request that is finished stays as it is.
step-closed :
    (parse : String → Option Json) (s : Shared) (path : String) (body : Option Json)
    (retried : Bool) (stage : Stage) (e : Event)
    → is_open stage ≡ false
    → (step parse s
        (record { path = path; body = body; retried = retried; stage = stage })
        e).1.stage
      ≡ stage
unfolding step
step-closed parse s path body retried stage (others s') h = refl
step-closed parse s path body retried (finished reply) (session_arrives p) h = refl
step-closed parse s path body retried (finished reply) (answer_arrives a) h = refl
step-closed parse s path body retried stage e h = absurd (ground (arith, h))

run-closed :
    (parse : String → Option Json) (s : Shared) (r : Request) (es : List Event)
    → is_open r.stage ≡ false
    → (run parse s r es).0.stage ≡ r.stage
unfolding run
run-closed parse s r [] h = refl
run-closed parse s r (e ∷ es) h =
    let m = step parse s r e in
    let same = step-closed parse s r.path r.body r.retried r.stage e h in
    run-closed parse m.0 m.1 es (rw same h) ∙ same

Comes-later :
    (parse : String → Option Json) (path : String) (body : Option Json) (v : Json) (e : Event)
    (es : List Event)
    → Comes parse path body v es
    → Comes parse path body v (e ∷ es)
Comes-later parse path body v (session_arrives p) es h = h
Comes-later parse path body v (answer_arrives a) es h = inr h
Comes-later parse path body v (others s) es h = h

-- A request that is still open returns a value only if one of the answers that reach it gives that
-- value: an answer with a status of success whose text is its JSON, or, for an action under an id,
-- a lost answer, and then the value is the receipt with that id that says that the outcome is unknown.
pub run-Comes :
    (parse : String → Option Json) (s : Shared) (r : Request) (es : List Event) (v : Json)
    → is_open r.stage ≡ true
    → (run parse s r es).0.stage ≡ finished (resolved v)
    → Comes parse r.path r.body v es
unfolding run
run-Comes parse s r [] v o h = absurd (ground (arith, o, h))
run-Comes parse s r (e ∷ es) v o h =
    let m = step parse s r e in
    elim (Bool-cases (is_open m.1.stage)) [
      | inl q ↦
          let (same_path, same_body) = step-Asks parse s r e in
          Comes-later parse r.path r.body v e es
            (rw (same_path, same_body) at (run-Comes parse m.0 m.1 es v q h))
      | inr q ↦
          step-Gives parse s r.path r.body r.retried r.stage e v es o
            (sym (run-closed parse m.0 m.1 es q) ∙ h)
    ]
