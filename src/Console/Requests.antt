-- ===== src/Console/Requests.antt =====
-- apps/web/src/operator/api.ts: a request in its environment, where other requests share the session.
use montlok_terminal.Prelude.{String, List, [], ◌∷◌, ◌++◌, Option}
use montlok_terminal.Json.{Json}
use montlok_terminal.Console.Session.{SessionInfo, Shared, Effect, fetch_api, Fetch, Promised}
use montlok_terminal.Console.Request.{
  session_awaited, response_awaited, refresh_awaited, Request, Moved, session_ready, Answer,
  refreshed_ready, response_ready,
}

-- What reaches a request: the promise of a session, the answer to its fetch, and anything that the
-- other requests do to the session.
pub data Event : Type 0 where
  session_arrives : Promised SessionInfo → Event
  answer_arrives : Answer → Event
  others : Shared → Event

unfoldable pub step : (String → Option Json) → Shared → Request → Event → Moved
step parse s r (others s') = (s', r, [])
step parse s r (session_arrives p) = elim r.stage [
  | session_awaited ↦ session_ready s r p
  | refresh_awaited identity ↦ refreshed_ready s r identity p
  | _ ↦ (s, r, [])
]
step parse s r (answer_arrives a) = elim r.stage [
  | response_awaited identity ↦ response_ready parse s r identity a
  | _ ↦ (s, r, [])
]

unfoldable pub run : (String → Option Json) → Shared → Request → List Event → Request × List Effect
run parse s r [] = (r, [])
run parse s r (e ∷ es) =
    let (s', r', now) = step parse s r e in
    let (r'', later) = run parse s' r' es in (r'', now ++ later)

abbrev pub fetches : List Effect → List Fetch
fetches [] = []
fetches (fetch_api f ∷ fs) = f ∷ fetches fs
fetches (_ ∷ fs) = fetches fs
