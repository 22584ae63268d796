-- ===== src/Console/Replay.antt =====
-- apps/web/src/operator/api.ts: how often a request is sent.
use montlok_terminal.Prelude.{
  ℕ, ◌+◌, ◌≤◌, String, ◌≡◌, Bool, true, false, List, [], ◌∷◌, ◌++◌, Option, none, some, arith,
  if◌then◌else◌, string_eq, nat_eq, length, Option-cases, Bool-cases, inl, inr,
}
use montlok_terminal.Json.{Json}
use montlok_terminal.Console.Session.{
  SessionInfo, Shared, Effect, fetch_session, fetch_api, to_login, reload, Promised, resolved,
  rejected, ensure_session,
}
use montlok_terminal.Console.Request.{
  Stage, session_awaited, response_awaited, refresh_awaited, finished, Request, Moved, is_read,
  send, start_request, session_ready, Answer, broken, response, refreshed_ready, refresh,
  value_ready, response_ready, forget, body_id,
}
use montlok_terminal.Console.Requests.{
  Event, session_arrives, answer_arrives, others, step, run, fetches,
}

abbrev sends : List Effect → ℕ
sends fs = length (fetches fs)

-- How often a request may still be sent.
abbrev left_at : Bool → Bool → Stage → ℕ
left_at read retried session_awaited = if retried then 1 else if read then 2 else 1
left_at read retried (response_awaited identity) = if retried then 0 else if read then 1 else 0
left_at read retried (refresh_awaited identity) = if read then 1 else 0
left_at read retried (finished reply) = 0

abbrev left : Request → ℕ
left r = left_at (is_read r) r.retried r.stage

sends-append : (xs ys : List Effect) → sends (xs ++ ys) ≡ sends xs + sends ys
sends-append [] ys = omega arith
sends-append (fetch_api f ∷ xs) ys = ground (arith, sends-append xs ys)
sends-append (fetch_session ∷ xs) ys = sends-append xs ys
sends-append (to_login ∷ xs) ys = sends-append xs ys
sends-append (reload ∷ xs) ys = sends-append xs ys

-- A move keeps what is asked, and pays for what it sends.
abbrev Pays : Request → ℕ → Moved → Type 0
Pays r n m = (is_read m.1 ≡ is_read r) × (sends m.2 + left m.1 ≤ n)

start_request-Pays :
    (s : Shared) (r : Request)
    → Pays r (left_at (is_read r) r.retried session_awaited) (start_request s r)
unfolding start_request send ensure_session
start_request-Pays s r = ground arith

refreshed_ready-Pays :
    (s : Shared) (r : Request) (identity : SessionInfo) (p : Promised SessionInfo)
    → Pays r (if is_read r then 1 else 0) (refreshed_ready s r identity p)
unfolding refreshed_ready
refreshed_ready-Pays s r identity (rejected why) = ground arith
refreshed_ready-Pays s r identity (resolved info) =
    ground (arith, start_request-Pays s (record r { retried = true }))

refresh-Pays :
    (s : Shared) (r : Request) (identity : SessionInfo)
    → Pays r (if is_read r then 1 else 0) (refresh s r identity)
unfolding refresh ensure_session
refresh-Pays s r identity =
    let s₁ = forget s identity in
    elim (Bool-cases s₁.starting) [
      | inl q ↦ ground (arith, q)
      | inr q ↦ elim (Option-cases s₁.session) [
        | inl p ↦ ground (arith, q, p)
        | inr (info, p) ↦ ground (arith, q, p, refreshed_ready-Pays s₁ r identity (resolved info))
      ]
    ]

value_ready-Pays :
    (s : Shared) (r : Request) (identity : SessionInfo) (status : ℕ) (text : String)
    (value : Option Json)
    → Pays r
        (left_at (is_read r) r.retried (response_awaited identity))
        (value_ready s r identity status text value)
unfolding value_ready
value_ready-Pays s r identity status text none = ground arith
value_ready-Pays s r identity status text (some value) = ground (arith, refresh-Pays s r identity)

response_ready-Pays :
    (parse : String → Option Json) (s : Shared) (r : Request) (identity : SessionInfo) (a : Answer)
    → Pays r
        (left_at (is_read r) r.retried (response_awaited identity))
        (response_ready parse s r identity a)
unfolding response_ready
response_ready-Pays parse s r identity (broken reason) = elim (Option-cases (body_id r.body)) [
  | inl q ↦ ground (arith, q)
  | inr (id, q) ↦ ground (arith, q)
]
response_ready-Pays parse s r identity (response status text) =
    ground (arith, value_ready-Pays s r identity status text (parse text))

session_ready-Pays :
    (s : Shared) (r : Request) (p : Promised SessionInfo)
    → Pays r (left_at (is_read r) r.retried session_awaited) (session_ready s r p)
unfolding session_ready send
session_ready-Pays s r (rejected why) = ground arith
session_ready-Pays s r (resolved info) = ground arith

step-Pays :
    (parse : String → Option Json) (s : Shared) (path : String) (body : Option Json)
    (retried : Bool) (stage : Stage) (e : Event)
    → let r : Request = record { path = path; body = body; retried = retried; stage = stage } in
      Pays r (left r) (step parse s r e)
unfolding step
step-Pays parse s path body retried stage (others s') = ground arith
step-Pays parse s path body retried session_awaited (session_arrives p) = session_ready-Pays s _ p
step-Pays parse s path body retried (refresh_awaited identity) (session_arrives p) =
    refreshed_ready-Pays s _ identity p
step-Pays parse s path body retried (response_awaited identity) (answer_arrives a) =
    response_ready-Pays parse s _ identity a
step-Pays parse s path body retried (response_awaited identity) (session_arrives p) = ground arith
step-Pays parse s path body retried (finished reply) (session_arrives p) = ground arith
step-Pays parse s path body retried session_awaited (answer_arrives a) = ground arith
step-Pays parse s path body retried (refresh_awaited identity) (answer_arrives a) = ground arith
step-Pays parse s path body retried (finished reply) (answer_arrives a) = ground arith

run-Pays :
    (parse : String → Option Json) (s : Shared) (r : Request) (es : List Event)
    → sends (run parse s r es).1 ≤ left r
unfolding run
run-Pays parse s r [] = omega arith
run-Pays parse s r (e ∷ es) =
    let m = step parse s r e in
    omega (
      arith,
      step-Pays parse s r.path r.body r.retried r.stage e,
      run-Pays parse m.0 m.1 es,
      sends-append m.2 (run parse m.0 m.1 es).1,
    )

-- A call of the server is sent at most once if it may change anything there, and at most twice if it
-- only reads, whatever the answers are, however often the session is renewed, and whatever other
-- calls do to the session meanwhile.
pub run-sends :
    (parse : String → Option Json) (s : Shared) (path : String) (body : Option Json)
    (es : List Event)
    → let r : Request = record {
      path = path;
      body = body;
      retried = false;
      stage = session_awaited;
    } in
      let (s', r', now) = start_request s r in
      length (fetches (now ++ (run parse s' r' es).1)) ≤ (if is_read r then 2 else 1)
run-sends parse s path body es =
    let r : Request = record {
      path = path;
      body = body;
      retried = false;
      stage = session_awaited;
    } in
    let m = start_request s r in
    omega (
      arith,
      start_request-Pays s r,
      run-Pays parse m.0 m.1 es,
      sends-append m.2 (run parse m.0 m.1 es).1,
    )
