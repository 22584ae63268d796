-- ===== src/Console/AnswerExamples.antt =====
-- apps/web/src: an upload and a snapshot on concrete answers.
use montlok_terminal.Prelude.{String, ◌≡◌, ◌⊎◌, refl, true, Option, none, some}
use montlok_terminal.Json.{Json, string, object, field, end}
use montlok_terminal.Console.Session.{SessionInfo, Failure, Promised, resolved, rejected}
use montlok_terminal.Console.Upload.{Response, File, strategy, upload_artifact}
use montlok_terminal.Console.Uploads.{Refused, Answered, IsAccepted, upload_artifact_cases}
use montlok_terminal.Console.Observation.{fetch_observation, validate_observation, with_provenance}
use montlok_terminal.Console.Observed.{Fetched, fetch_observation-Matches}

abbrev file : File
file = record { name = "grid.JSON"; size = 2048 }

abbrev admin : SessionInfo
admin = record { csrf = "token"; operator = "op"; role = "admin"; mode = "" }

abbrev parse : String → Option Json
parse text = some (object (field "artifact" (object (field "id" (string "a1") end)) end))

abbrev answer : Response
answer = resolved (200, resolved "{…}")

upload_artifact_cases_example :
    let r = upload_artifact parse strategy file (resolved admin) answer in
    (Refused strategy file (resolved admin)
      × (r.sent ≡ none)
      × (why : Failure) × (r.reply ≡ rejected why))
    ⊎ (IsAccepted file strategy
        × (identity : SessionInfo) × (resolved admin ≡ resolved identity)
        × (identity.role ≡ "admin")
        × (r.sent ≡ some identity.csrf)
        × Answered parse answer r.reply)
upload_artifact_cases_example = upload_artifact_cases parse strategy file (resolved admin) answer

abbrev missing : Failure
missing = record { message = "HTTP 404"; status = some 404; code = none }

abbrev snapshot : Json
snapshot = object (
    field "id" (string "g1") (
      field "mode" (string "live")
        (field "runId" (string "r1") (field "metrics" (object end) end))))

abbrev legacy : Json
legacy = with_provenance snapshot

abbrev v2 : Promised Json
v2 = rejected missing

fetch_observation-Matches_example :
    Fetched v2 (resolved snapshot) "g1" "r1" (fetch_observation v2 (resolved snapshot) "g1" "r1")
fetch_observation-Matches_example = fetch_observation-Matches v2 (resolved snapshot) "g1" "r1"

-- The older snapshot of the run is the result.
fetched_older :
    fetch_observation v2 (resolved snapshot) "g1" "r1" ≡ (resolved (with_provenance snapshot), true)
unfolding fetch_observation validate_observation
fetched_older = refl
