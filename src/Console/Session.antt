-- ===== src/Console/Session.antt =====
-- apps/web/src/operator/api.ts: the session that every request shares, and `ensureSession`.
-- The fields of a `SessionInfo` are texts; a field that the answer lacks is the empty text. `starting`
-- says that the promise of a session request is kept; who awaits it is in the stage of a request.
use montlok_terminal.Prelude.{
  ℕ, String, Bool, true, false, not, ◌&&◌, List, [], ◌∷◌, Option, none, some, if◌then◌else◌, leb,
  ◌==◌, nat_eq, string_eq, includes,
}
use montlok_terminal.Json.{Json}

pub record SessionInfo : Type 0 where
  pub csrf : String
  pub operator : String
  pub role : String
  pub mode : String

pub record Shared : Type 0 where
  pub session : Option SessionInfo
  pub starting : Bool

pub data Method : Type 0 where
  get_method post_method : Method

pub record Fetch : Type 0 where
  pub method : Method
  pub path : String
  pub csrf : String
  pub body : Option Json
  pub timeout : ℕ

pub data Effect : Type 0 where
  fetch_session : Effect
  fetch_api : Fetch → Effect
  to_login : Effect
  reload : Effect

-- why a promise is rejected
pub record Failure : Type 0 where
  pub message : String
  pub status : Option ℕ
  pub code : Option Json

abbrev pub plain : String → Failure
plain message = record { message = message; status = none; code = none }

pub data Promised (A : Type 0) : Type 0 where
  resolved : A → Promised A
  rejected : Failure → Promised A

-- `none`: the caller awaits the session request that is under way
unfoldable pub ensure_session : Shared → Shared × Option SessionInfo × List Effect
ensure_session s = if s.starting then (s, none, []) else elim s.session [
  | some info ↦ (s, some info, [])
  | none ↦ (record s { starting = true }, none, fetch_session ∷ [])
]

pub data SessionAnswer : Type 0 where
  unreachable : String → SessionAnswer
  -- the body is `none` where it is no JSON object
  answered : ℕ → Option SessionInfo → SessionAnswer

-- `response.ok`
abbrev pub is_ok : ℕ → Bool
is_ok status = leb 200 status && leb status 299

abbrev pub is_valid : SessionInfo → Bool
is_valid info =
    not (info.csrf == "")
    && not (info.operator == "")
    && includes ("admin" ∷ "viewer" ∷ []) info.role

-- The answer to the session request, on the login page or elsewhere, and `finally`.
unfoldable pub session_settled :
    Shared → Bool → SessionAnswer → Shared × Promised SessionInfo × List Effect
session_settled s on_login (unreachable reason) =
    (record s { starting = false }, rejected (plain reason), [])
session_settled s on_login (answered status body) =
    let s' = record s { starting = false } in
    if status == 401
    then (s', rejected (plain "请登录交易操作台"), (if on_login then [] else to_login ∷ []))
    else if not (is_ok status)
    then (s', rejected (plain "无法连接操作服务"), [])
    else elim body [
      | none ↦ (s', rejected (plain "SyntaxError"), [])
      | some info ↦
          if is_valid info
          then (record s' { session = some info }, resolved info, [])
          else (s', rejected (plain "登录会话无效，请重新登录"), [])
    ]
