-- ===== src/Console/Examples.antt =====
-- apps/web/src/operator: polling and requests on concrete events.
use montlok_terminal.Prelude.{
  ◌≤◌, String, ◌≡◌, ◌⊎◌, refl, true, false, List, [], ◌∷◌, ◌++◌, Option, none, some, length,
  if◌then◌else◌, nat_eq, string_eq,
}
use montlok_terminal.JsMap.{get}
use montlok_terminal.Json.{Json, string, object, field, end}
use montlok_terminal.Console.Poll.{
  Poll, Event, interval, refresh, visibility, settled, unmounted, step,
}
use montlok_terminal.Console.PollRuns.{alternates, log, log-alternates, run, refresh-served}
use montlok_terminal.Console.Session.{SessionInfo, Shared, resolved}
use montlok_terminal.Console.Request.{
  Request, session_awaited, response, broken, is_read, start_request, unknown_receipt,
  session_ready, send, response_ready,
}
use montlok_terminal.Console.Requests.{
  session_arrives, answer_arrives, fetches, run as run_request, step as request_step,
}
use montlok_terminal.Console.Replay.{run-sends}
use montlok_terminal.Console.Replies.{Comes, run-Comes}
use montlok_terminal.Console.Reads.{read_api, no_reads, reads, writes, settles as settles_read}
use montlok_terminal.Console.Sharing.{run as run_reads, run-shares}

abbrev idle_poll : Poll
idle_poll = record { aborted = false; in_flight = false; queued = false; hidden = false }

abbrev busy_poll : Poll
busy_poll = record idle_poll { in_flight = true }

abbrev poll_events : List Event
poll_events =
    interval ∷ refresh ∷ visibility true ∷ settled ∷ visibility false ∷ unmounted ∷ settled ∷ []

log-alternates_example : alternates false (log idle_poll poll_events) ≡ true
log-alternates_example = log-alternates idle_poll poll_events

refresh-served_example :
    ((step busy_poll refresh).1 ≡ true)
    ⊎ ((busy_poll.in_flight ≡ true)
        × ((step (run (step busy_poll refresh).0 (interval ∷ refresh ∷ [])) settled).1 ≡ true))
refresh-served_example =
    refresh-served busy_poll (interval ∷ refresh ∷ []) refl refl (refl, (refl, tt))

abbrev info : SessionInfo
info = record { csrf = "token"; operator = "op"; role = "admin"; mode = "" }

abbrev logged_out : Shared
logged_out = record { session = none; starting = false }

-- Every text is read as an answer that the session is out of date.
abbrev mismatch : String → Option Json
mismatch text = some (object (field "code" (string "SESSION_CSRF_MISMATCH") end))

run-sends_example :
    let r : Request = record {
      path = "account";
      body = none;
      retried = false;
      stage = session_awaited;
    } in
    let (s', r', now) = start_request logged_out r in
    length (
      fetches (
        now
        ++ (run_request mismatch s' r' (
            session_arrives (resolved info)
            ∷ answer_arrives (response 403 "")
            ∷ session_arrives (resolved info)
            ∷ [])).1))
    ≤ (if is_read r then 2 else 1)
run-sends_example = run-sends mismatch logged_out "account" none (
    session_arrives (resolved info)
    ∷ answer_arrives (response 403 "")
    ∷ session_arrives (resolved info)
    ∷ [])

abbrev action : Request
action = record {
  path = "execute";
  body = some (object (field "id" (string "a1") end));
  retried = false;
  stage = session_awaited;
}

run-Comes_example :
    Comes mismatch "execute" action.body
      (unknown_receipt "a1")
      (session_arrives (resolved info) ∷ answer_arrives (broken "timeout") ∷ [])
unfolding run_request request_step session_ready send response_ready
run-Comes_example =
    run-Comes mismatch logged_out action
      (session_arrives (resolved info) ∷ answer_arrives (broken "timeout") ∷ [])
      (unknown_receipt "a1") refl refl

run-shares_example :
    let (r, promise, made) =
      read_api (run_reads no_reads (reads "k" ∷ writes ∷ reads "k" ∷ settles_read 0 ∷ [])) "k" in
    (get r.finals promise ≡ some "k") × (read_api r "k" ≡ (r, promise, false))
run-shares_example = run-shares (reads "k" ∷ writes ∷ reads "k" ∷ settles_read 0 ∷ []) "k"
