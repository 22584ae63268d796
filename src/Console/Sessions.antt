-- ===== src/Console/Sessions.antt =====
-- apps/web/src/operator/api.ts: the shared session over everything that requests do to it.
use montlok_terminal.Prelude.{
  ◌≡◌, Bool, true, false, List, [], ◌∷◌, Option, none, some, arith, string_eq, Option-cases,
  Bool-cases, inl, inr,
}
use montlok_terminal.Console.Session.{
  SessionInfo, Shared, ensure_session, SessionAnswer, unreachable, answered, is_valid,
  session_settled,
}
use montlok_terminal.Console.Request.{forget}

-- What a request does to the session: it asks for it, it takes in the answer of the session request,
-- it finds the session expired, or out of date under an identity.
pub data Change : Type 0 where
  asks : Change
  settles : Bool → SessionAnswer → Change
  expires : Change
  is_outdated : SessionInfo → Change

unfoldable pub change : Shared → Change → Shared
change s asks = (ensure_session s).0
change s (settles on_login a) = (session_settled s on_login a).0
change s expires = record { session = none; starting = false }
change s (is_outdated identity) = forget s identity

pub changes : Shared → List Change → Shared
changes s [] = s
changes s (c ∷ cs) = changes (change s c) cs

-- A session that is kept has a token, an operator and one of the two roles.
abbrev pub IsValid : Option SessionInfo → Type 0
IsValid none = Unit
IsValid (some info) = is_valid info ≡ true

change-IsValid : (s : Shared) (c : Change) → IsValid s.session → IsValid (change s c).session
unfolding change ensure_session session_settled
change-IsValid s asks h = elim (Bool-cases s.starting) [
  | inl q ↦ rw q h
  | inr q ↦ elim (Option-cases s.session) [
    | inl p ↦ rw (q, p, ensure_session) tt
    | inr (i, p) ↦ rw (q, p, ensure_session) (rw p at h)
  ]
]
change-IsValid s (settles on_login (unreachable reason)) h = h
change-IsValid s (settles on_login (answered status body)) h = ground (arith, h)
change-IsValid s expires h = tt
change-IsValid s (is_outdated identity) h = ground (arith, h)

-- Over anything that the requests do to the session, in any order, a session that is kept is valid:
-- its token and its operator are no empty texts, and its role is admin or viewer.
pub changes-IsValid :
    (s : Shared) (cs : List Change) → IsValid s.session → IsValid (changes s cs).session
unfolding changes
changes-IsValid s [] h = h
changes-IsValid s (c ∷ cs) h = changes-IsValid (change s c) cs (change-IsValid s c h)
