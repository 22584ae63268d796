-- ===== src/Console/Request.antt =====
-- apps/web/src/operator/api.ts: `request`, as the stages between its awaits.
-- A body is JSON, `none` where there is none; `JSON.parse` is the argument `parse`. A field `error` that
-- is no text counts as missing.
use Prim.Native.String.{◌++◌ as ◌+s◌}
use montlok_terminal.Prelude.{
  ℕ, String, Bool, true, false, not, ◌&&◌, ◌||◌, List, [], ◌∷◌, Option, none, some, if◌then◌else◌,
  ◌==◌, nat_eq, string_eq, is_some, get_or,
}
use montlok_terminal.Prelude.Decimal.{decimal}
use montlok_terminal.JsMap.{get}
use montlok_terminal.Json.{Json, string, object, field, end, entries, as_string}
use montlok_terminal.Console.Session.{
  SessionInfo, Shared, get_method, post_method, Fetch, Effect, fetch_api, to_login, reload, plain,
  Promised, resolved, rejected, ensure_session, is_ok,
}

pub data Stage : Type 0 where
  session_awaited : Stage
  response_awaited : SessionInfo → Stage
  refresh_awaited : SessionInfo → Stage
  finished : Promised Json → Stage

pub record Request : Type 0 where
  pub path : String
  pub body : Option Json
  pub retried : Bool
  pub stage : Stage

abbrev pub Moved : Type 0
Moved = Shared × Request × List Effect

-- A request that may be sent again: it changes nothing on the server.
abbrev pub is_read : Request → Bool
is_read r = not (is_some r.body) || r.path == "query"

abbrev pub fetch_of : Request → SessionInfo → Fetch
fetch_of r info = record {
  method = if is_some r.body then post_method else get_method;
  path = r.path;
  csrf = info.csrf;
  body = r.body;
  timeout = if is_read r then 15000 else 60000;
}

unfoldable pub send : Shared → Request → SessionInfo → Moved
send s r info = (s, record r { stage = response_awaited info }, fetch_api (fetch_of r info) ∷ [])

abbrev pub finish : Shared → Request → Promised Json → List Effect → Moved
finish s r reply effects = (s, record r { stage = finished reply }, effects)

-- the call `request(path, body, retried)`, up to its first await that waits
unfoldable pub start_request : Shared → Request → Moved
start_request s r =
    let (s', info, effects) = ensure_session s in
    elim info [
      | none ↦ (s', record r { stage = session_awaited }, effects)
      | some known ↦ send s' r known
    ]

unfoldable pub session_ready : Shared → Request → Promised SessionInfo → Moved
session_ready s r (rejected why) = finish s r (rejected why) []
session_ready s r (resolved info) = send s r info

pub data Answer : Type 0 where
  broken : String → Answer
  response : ℕ → String → Answer

-- the text `id` of a body that is an object
abbrev pub body_id : Option Json → Option String
body_id (some (object fields)) = elim (get (entries fields) "id") [
  | none ↦ none
  | some j ↦ as_string j
]
body_id _ = none

-- The receipt of an action whose answer is lost: whether it happened is not known.
abbrev pub unknown_receipt : String → Json
unknown_receipt id = object (
    field "id" (string id) (
      field "status" (string "unknown") (
        field "result"
          (object (
            field "receiptStatus" (string "unknown")
              (field "reason" (string "请求结果待核对，请查询操作记录") end)))
          end)))

abbrev pub field_of : Json → String → Option Json
field_of (object fields) key = get (entries fields) key
field_of _ key = none

abbrev pub is_mismatch : Json → Bool
is_mismatch value = elim (field_of value "code") [
  | none ↦ false
  | some code ↦ get_or (as_string code) "" == "SESSION_CSRF_MISMATCH"
]

abbrev text_of : Option Json → String
text_of none = ""
text_of (some j) = get_or (as_string j) ""

-- `if (session?.csrf === identity.csrf) session = undefined`
abbrev pub forget : Shared → SessionInfo → Shared
forget s identity = elim s.session [
  | none ↦ s
  | some info ↦ if info.csrf == identity.csrf then record s { session = none } else s
]

-- the retry of a read, once the session is known again
unfoldable pub refreshed_ready : Shared → Request → SessionInfo → Promised SessionInfo → Moved
refreshed_ready s r identity (rejected why) = finish s r (rejected why) []
refreshed_ready s r identity (resolved info) =
    if not (info.operator == identity.operator) || not (info.role == identity.role)
    then finish s r (rejected (plain "登录身份已变更，正在刷新")) (reload ∷ [])
    else if is_read r
    then start_request s (record r { retried = true })
    else finish s r (rejected (plain "会话已更新，请重新确认操作")) []

-- a session that is out of date
unfoldable pub refresh : Shared → Request → SessionInfo → Moved
refresh s r identity =
    let (s', info, effects) = ensure_session (forget s identity) in
    elim info [
      | none ↦ (s', record r { stage = refresh_awaited identity }, effects)
      | some known ↦ refreshed_ready s' r identity (resolved known)
    ]

-- `worded || `HTTP ${status}``
unfoldable pub http_message : String → ℕ → String
http_message worded status = if worded == "" then "HTTP " +s decimal status else worded

abbrev is_null : Json → Bool
is_null Json.null = true
is_null _ = false

-- The answer parsed: `none` where it is no JSON.
unfoldable pub value_ready : Shared → Request → SessionInfo → ℕ → String → Option Json → Moved
value_ready s r identity status text none =
    finish s r
      (rejected (record { message = http_message text status; status = some status; code = none }))
      []
value_ready s r identity status text (some value) =
    if not (is_ok status) && is_null value
    then finish s r (rejected (plain "TypeError")) []
    else if status == 403 && is_mismatch value && not r.retried
    then refresh s r identity
    else if not (is_ok status)
    then finish s r
        (rejected (record {
          message = http_message (text_of (field_of value "error")) status;
          status = some status;
          code = field_of value "code";
        }))
        []
    else finish s r (resolved value) []

unfoldable pub response_ready :
    (String → Option Json) → Shared → Request → SessionInfo → Answer → Moved
response_ready parse s r identity (broken reason) =
    if r.path == "execute"
    then elim (body_id r.body) [
      | some id ↦ finish s r (resolved (unknown_receipt id)) []
      | none ↦ finish s r (rejected (plain reason)) []
    ]
    else finish s r (rejected (plain reason)) []
response_ready parse s r identity (response status text) =
    if status == 401
    then finish (record { session = none; starting = false }) r (rejected (plain "登录已过期"))
        (to_login ∷ [])
    else value_ready s r identity status text (parse text)
