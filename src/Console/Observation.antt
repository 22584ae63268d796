-- ===== src/Console/Observation.antt =====
-- apps/web/src/operator/runObservation.ts: the snapshot of a run. The two requests are given as what
-- `api` promises for them; a property that is missing is null.
use montlok_terminal.Prelude.{
  String, Bool, true, false, not, ◌&&◌, ◌||◌, none, some, if◌then◌else◌, ◌==◌, nat_eq, string_eq,
}
use montlok_terminal.Json.{Json, Fields, object, string, field, end, as_string}
use montlok_terminal.Console.Session.{Failure, Promised, resolved, rejected, plain}
use montlok_terminal.Console.Upload.{is_truthy, property_of}

-- an object that is no array
abbrev pub is_record : Json → Bool
is_record (object fields) = true
is_record _ = false

-- `value === text`
abbrev pub is_text : Json → String → Bool
is_text j text = elim (as_string j) as (λ x. Bool) [ none ↦ false | some t ↦ t == text ]

unfoldable pub validate_observation : Json → String → String → Promised Json
validate_observation value group run =
    if not (is_truthy value) || not (is_record (property_of value "metrics"))
    then rejected (plain "运行指标快照格式不完整")
    else if not (is_text (property_of value "id") group)
        || not (is_text (property_of value "mode") "live")
        || (not (run == "") && not (is_text (property_of value "runId") run))
    then rejected (plain "运行数据与所选账户上下文不一致")
    else resolved value

abbrev pub legacy_provenance : Json
legacy_provenance = object (
    field "source" (string "operator.live_snapshot") (
      field "accounting_basis" (string "reported_run_mark_to_market")
        (field "calculation_version" (string "legacy-view-v1") end)))

-- A property written in an object that is copied: in place, or at the end.
abbrev pub put_field : Fields → String → Json → Fields
put_field end key value = field key value end
put_field (field k v fs) key value =
    let rest = put_field fs key value in if k == key then field k value fs else field k v rest

-- `{...value, provenance: …}`: the copy of anything that is no object has no property that is read.
abbrev pub with_provenance : Json → Json
with_provenance (object fields) = object (put_field fields "provenance" legacy_provenance)
with_provenance _ = object (field "provenance" legacy_provenance end)

abbrev pub is_missing : Failure → Bool
is_missing why = elim why.status as (λ x. Bool) [ none ↦ false | some status ↦ status == 404 ]

-- The result, and whether the second request is made.
unfoldable pub fetch_observation :
    Promised Json → Promised Json → String → String → Promised Json × Bool
fetch_observation (resolved value) v1 group run = (validate_observation value group run, false)
fetch_observation (rejected why) v1 group run =
    if not (is_missing why) then (rejected why, false) else elim v1 [
      | rejected later ↦ (rejected later, true)
      | resolved value ↦ (validate_observation (with_provenance value) group run, true)
    ]
