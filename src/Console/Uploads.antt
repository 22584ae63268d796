-- ===== src/Console/Uploads.antt =====
-- apps/web/src/pages/Artifacts/artifactModel.ts: what is sent, and what counts as registered.
use montlok_terminal.Prelude.{
  ℕ, ◌*◌, ◌≤◌, ◌<◌, String, ◌≡◌, ◌⊎◌, refl, inl, inr, Bool, true, false, ◌&&◌, Option, none, some,
  arith, ◌==◌, string_eq, nat_eq, includes, Option-cases, Bool-cases,
}
use montlok_terminal.Json.{Json}
use montlok_terminal.Console.Session.{SessionInfo, Failure, Promised, resolved, rejected, is_ok}
use montlok_terminal.Console.Upload.{
  ArtifactKind, File, accepted_files, extension_of, validate_upload, is_truthy, property_of,
  is_null, upload_answer, Response, upload_response, upload_artifact,
}

-- A file that may be uploaded as this kind.
abbrev pub IsAccepted : File → ArtifactKind → Type 0
IsAccepted file kind =
    (0 < file.size)
    × (file.size ≤ 64 * 1024 * 1024)
    × (includes (accepted_files kind) (extension_of file) ≡ true)
    × (((extension_of file == ".json") ≡ false) ⊎ (file.size ≤ 4 * 1024 * 1024))

validate_upload-IsAccepted :
    (file : File) (kind : ArtifactKind) → validate_upload file kind ≡ none → IsAccepted file kind
unfolding validate_upload
validate_upload-IsAccepted file kind h = (
  ground (arith, h),
  ground (arith, h),
  ground (arith, h),
  elim (Bool-cases (extension_of file == ".json")) [
    | inl j ↦ inr (ground (arith, h, j))
    | inr j ↦ inl j
  ],
)

validate_upload-refuses :
    (file : File) (kind : ArtifactKind) (error : String)
    → validate_upload file kind ≡ some error
    → ¬ IsAccepted file kind
unfolding validate_upload
validate_upload-refuses file kind error h (a, b, c, inl j) = ground (arith, h, a, b, c, j)
validate_upload-refuses file kind error h (a, b, c, inr j) = ground (arith, h, a, b, c, j)

-- Whether an answer holds the record of the artifact.
abbrev pub is_registered : ℕ → Option Json → Bool
is_registered status none = false
is_registered status (some value) = is_ok status && is_truthy (property_of value "artifact")

null-unregistered :
    (status : ℕ) (value : Json) → is_null value ≡ true → is_registered status (some value) ≡ false
null-unregistered status Json.null h = ground arith
null-unregistered status value h = absurd (ground (arith, h))

-- An answer of success that holds the record gives it, and any other is an error.
abbrev pub Answers : (String → Option Json) → ℕ → String → Promised Json → Type 0
Answers parse status text reply =
    ((is_registered status (parse text) ≡ false) × (why : Failure) × (reply ≡ rejected why))
    ⊎ ((is_registered status (parse text) ≡ true)
        × (value : Json) × (parse text ≡ some value)
        × (reply ≡ resolved (property_of value "artifact")))

upload_answer-Answers :
    (parse : String → Option Json) (csrf : String) (status : ℕ) (text : String)
    → let r = upload_answer csrf status (parse text) in
      (r.sent ≡ some csrf) × Answers parse status text r.reply
unfolding upload_answer
upload_answer-Answers parse csrf status text = elim (Option-cases (parse text)) [
  | inl q ↦ rw (upload_answer, q) (refl, inl (refl, _, refl))
  | inr (value, q) ↦ elim (Bool-cases (is_null value)) [
    | inl n ↦ rw (upload_answer, q, n) (refl, inl (null-unregistered status value n, _, refl))
    | inr n ↦ elim (Bool-cases (is_ok status)) [
      | inr o ↦ rw (upload_answer, q, n, o) (refl, inl (refl, _, refl))
      | inl o ↦ elim (Bool-cases (is_truthy (property_of value "artifact"))) [
        | inl t ↦ rw (upload_answer, q, n, o, t) (refl, inr (refl, value, refl, refl))
        | inr t ↦ rw (upload_answer, q, n, o, t) (refl, inl (refl, _, refl))
      ]
    ]
  ]
]

-- What the upload comes to once it is sent.
abbrev pub Answered : (String → Option Json) → Response → Promised Json → Type 0
Answered parse (rejected why) reply = reply ≡ rejected why
Answered parse (resolved (status, rejected why)) reply = reply ≡ rejected why
Answered parse (resolved (status, resolved text)) reply = Answers parse status text reply

upload_response-Answered :
    (parse : String → Option Json) (csrf : String) (response : Response)
    → let r = upload_response parse csrf response in
      (r.sent ≡ some csrf) × Answered parse response r.reply
unfolding upload_response
upload_response-Answered parse csrf (rejected why) = (refl, refl)
upload_response-Answered parse csrf (resolved (status, rejected why)) = (refl, refl)
upload_response-Answered parse csrf (resolved (status, resolved text)) =
    upload_answer-Answers parse csrf status text

-- Why nothing is sent: the file is not accepted, there is no session, or it is not an administrator's.
abbrev pub Refused : ArtifactKind → File → Promised SessionInfo → Type 0
Refused kind file session =
    (¬ IsAccepted file kind)
    ⊎ ((why : Failure) × (session ≡ rejected why))
    ⊎ ((identity : SessionInfo) × (session ≡ resolved identity)
        × ((identity.role == "admin") ≡ false))

-- An upload is refused before anything is sent, and fails, exactly where the file is empty, over 64 MiB,
-- of a format that is not of its kind or a JSON definition over 4 MiB, or the session is missing or not
-- an administrator's. Otherwise the form is sent under the token of that session. A failing connection
-- or a failing body is the result; an answer of success that holds the record of the artifact gives that
-- record, and any other answer is an error.
pub upload_artifact_cases :
    (parse : String → Option Json) (kind : ArtifactKind) (file : File)
    (session : Promised SessionInfo) (response : Response)
    → let r = upload_artifact parse kind file session response in
      (Refused kind file session × (r.sent ≡ none) × (why : Failure) × (r.reply ≡ rejected why))
      ⊎ (IsAccepted file kind
          × (identity : SessionInfo) × (session ≡ resolved identity)
          × (identity.role ≡ "admin")
          × (r.sent ≡ some identity.csrf)
          × Answered parse response r.reply)
unfolding upload_artifact
upload_artifact_cases parse kind file (rejected why) response =
    elim (Option-cases (validate_upload file kind)) [
      | inl q ↦ rw (upload_artifact, q) (inl (inr (inl (why, refl)), refl, why, refl))
      | inr (error, q) ↦
          let refused = validate_upload-refuses file kind error q in
          rw (upload_artifact, q) (inl (inl refused, refl, _, refl))
    ]
upload_artifact_cases parse kind file (resolved identity) response =
    elim (Option-cases (validate_upload file kind)) [
      | inr (error, q) ↦
          let refused = validate_upload-refuses file kind error q in
          rw (upload_artifact, q) (inl (inl refused, refl, _, refl))
      | inl q ↦ elim (Bool-cases (identity.role == "admin")) [
        | inr a ↦ rw (upload_artifact, q, a) (inl (inr (inr (identity, refl, a)), refl, _, refl))
        | inl a ↦
            let (sent, answers) = upload_response-Answered parse identity.csrf response in
            rw (upload_artifact, q, a)
              (inr (
                validate_upload-IsAccepted file kind q,
                identity,
                refl,
                (string_eq.beq_iff identity.role "admin").0 a,
                sent,
                answers,
              ))
      ]
    ]
