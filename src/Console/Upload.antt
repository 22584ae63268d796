-- ===== src/Console/Upload.antt =====
-- apps/web/src/pages/Artifacts/artifactModel.ts: the check of a file and its upload.
use Prim.Native.Char.{code}
use Prim.Native.String.{String, [] as empty, ◌∷◌ as ◌∷s◌, ◌++◌ as ◌+s◌}
use montlok_terminal.Prelude.{
  ℕ, ◌-◌, ◌*◌, Bool, true, false, not, ◌&&◌, ◌||◌, List, [], ◌∷◌, Option, none, some, if◌then◌else◌,
  ltb, leb, ◌==◌, nat_eq, string_eq, includes, get_elem?, get_or,
}
use montlok_terminal.Prelude.Decimal.{decimal}
use montlok_terminal.JsMap.{get}
use montlok_terminal.Json.{Json, entries, as_string}
use montlok_terminal.Console.Session.{SessionInfo, Promised, resolved, rejected, plain, is_ok}

pub data ArtifactKind : Type 0 where
  factor model strategy : ArtifactKind

pub record File : Type 0 where
  pub name : String
  pub size : ℕ

abbrev pub accepted_files : ArtifactKind → List String
accepted_files factor = ".json" ∷ ".zip" ∷ []
accepted_files model = ".onnx" ∷ ".safetensors" ∷ ".zip" ∷ []
accepted_files strategy = ".json" ∷ ".zip" ∷ []

abbrev small_letters : List String
small_letters =
    "a" ∷ "b" ∷ "c" ∷ "d" ∷ "e" ∷ "f" ∷ "g" ∷ "h" ∷ "i" ∷ "j" ∷ "k" ∷ "l" ∷ "m" ∷ "n" ∷ "o" ∷ "p"
    ∷ "q" ∷ "r" ∷ "s" ∷ "t" ∷ "u" ∷ "v" ∷ "w" ∷ "x" ∷ "y" ∷ "z" ∷ []

-- `toLowerCase`, exact for the letters A–Z: no other character becomes a letter of an extension that
-- is accepted.
unfoldable pub lower : String → String
lower empty = empty
lower (c ∷s s) =
    let rest = lower s in
    if leb 65 (code c) && leb (code c) 90
    then get_or (get_elem? small_letters (code c - 65)) "" +s rest
    else c ∷s rest

abbrev has_dot : String → Bool
has_dot empty = false
has_dot (c ∷s s) = code c == 46 || has_dot s

-- `name.split('.').at(-1)`: what follows the last dot, or all of it
unfoldable pub last_part : String → String
last_part empty = empty
last_part (c ∷s s) =
    let rest = last_part s in if has_dot s then rest else if code c == 46 then s else c ∷s s

abbrev pub extension_of : File → String
extension_of file = "." +s lower (last_part file.name)

unfoldable pub validate_upload : File → ArtifactKind → Option String
validate_upload file kind =
    if file.size == 0
    then some "文件不能为空"
    else if ltb (64 * 1024 * 1024) file.size
    then some "单文件不能超过 64 MiB"
    else if not (includes (accepted_files kind) (extension_of file))
    then some "文件格式与所选类型不匹配"
    else if extension_of file == ".json" && ltb (4 * 1024 * 1024) file.size
    then some "JSON 定义不能超过 4 MiB"
    else none

-- The text of a number that is zero.
abbrev is_zero : String → Bool
is_zero empty = true
is_zero (c ∷s s) =
    let rest = is_zero s in
    if code c == 101 || code c == 69 then true else includes (45 ∷ 46 ∷ 48 ∷ []) (code c) && rest

abbrev pub is_truthy : Json → Bool
is_truthy Json.null = false
is_truthy (Json.bool b) = b
is_truthy (Json.number text) = not (is_zero text)
is_truthy (Json.string s) = not (s == "")
is_truthy _ = true

abbrev pub property_of : Json → String → Json
property_of (Json.object fields) key = get_or (get (entries fields) key) Json.null
property_of _ key = Json.null

abbrev pub is_null : Json → Bool
is_null Json.null = true
is_null _ = false

abbrev http_failure : ℕ → String
http_failure status = "上传失败（HTTP " +s decimal status +s "）"

abbrev text_of : Json → String
text_of j = get_or (as_string j) ""

pub record UploadResult : Type 0 where
  pub reply : Promised Json
  -- the token that the form was sent with, if it was sent
  pub sent : Option String
  pub to_login : Bool

-- The answer of the server, parsed. A property `error` that is no text counts as missing.
unfoldable pub upload_answer : String → ℕ → Option Json → UploadResult
upload_answer csrf status none = record {
  reply = rejected (plain (http_failure status));
  sent = some csrf;
  to_login = false;
}
upload_answer csrf status (some value) =
    if is_null value
    then record {
      reply = rejected (plain "TypeError");
      sent = some csrf;
      to_login = not (is_ok status) && status == 401;
    }
    else if not (is_ok status)
    then record {
      reply = rejected (
          plain (
            if text_of (property_of value "code") == "SESSION_CSRF_MISMATCH"
            then "会话已更新，请刷新页面后重新上传"
            else if text_of (property_of value "error") == ""
            then http_failure status
            else text_of (property_of value "error")));
      sent = some csrf;
      to_login = status == 401;
    }
    else if is_truthy (property_of value "artifact")
    then record {
      reply = resolved (property_of value "artifact");
      sent = some csrf;
      to_login = false;
    }
    else record { reply = rejected (plain "上传服务未返回登记记录"); sent = some csrf; to_login = false }

-- What `fetch` promises: the status, and what `response.text()` promises.
abbrev pub Response : Type 0
Response = Promised (ℕ × Promised String)

unfoldable pub upload_response : (String → Option Json) → String → Response → UploadResult
upload_response parse csrf (rejected why) = record {
  reply = rejected why;
  sent = some csrf;
  to_login = false;
}
upload_response parse csrf (resolved (status, rejected why)) = record {
  reply = rejected why;
  sent = some csrf;
  to_login = false;
}
upload_response parse csrf (resolved (status, resolved text)) =
    upload_answer csrf status (parse text)

-- `session` is what `ensureSession` promises, `response` what the upload is answered with.
unfoldable pub upload_artifact :
    (String → Option Json) → ArtifactKind → File → Promised SessionInfo → Response → UploadResult
upload_artifact parse kind file session response = elim (validate_upload file kind) [
  | some error ↦ record { reply = rejected (plain error); sent = none; to_login = false }
  | none ↦ elim session [
    | rejected why ↦ record { reply = rejected why; sent = none; to_login = false }
    | resolved identity ↦
        if not (identity.role == "admin")
        then record { reply = rejected (plain "此账户仅可查看文件"); sent = none; to_login = false }
        else upload_response parse identity.csrf response
  ]
]
