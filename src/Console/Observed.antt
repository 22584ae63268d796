-- ===== src/Console/Observed.antt =====
-- apps/web/src/operator/runObservation.ts: a snapshot that is shown is one of the run that was chosen.
use montlok_terminal.Prelude.{
  String, ◌≡◌, ◌⊎◌, refl, inl, inr, Bool, true, false, not, ◌&&◌, ◌||◌, arith, ◌==◌, nat_eq,
  string_eq, Bool-cases,
}
use montlok_terminal.Json.{Json, Fields, object, field, end}
use montlok_terminal.Console.Session.{Failure, Promised, resolved, rejected}
use montlok_terminal.Console.Upload.{is_truthy, property_of}
use montlok_terminal.Console.Observation.{
  is_record, is_text, validate_observation, legacy_provenance, put_field, with_provenance,
  is_missing, fetch_observation,
}

-- A snapshot of the group's run in live mode, with its metrics; of any run where none is chosen.
abbrev pub Matches : Json → String → String → Type 0
Matches value group run =
    (is_text (property_of value "id") group ≡ true)
    × (is_text (property_of value "mode") "live" ≡ true)
    × ((run ≡ "") ⊎ (is_text (property_of value "runId") run ≡ true))
    × (is_record (property_of value "metrics") ≡ true)

-- What becomes of a snapshot that came: it is the result exactly where it matches.
abbrev pub Validated : Json → String → String → Promised Json → Type 0
Validated value group run result =
    ((result ≡ resolved value) × Matches value group run)
    ⊎ ((why : Failure) × (result ≡ rejected why) × ¬ Matches value group run)

-- A value with a property that is an object is an object.
truthy_of :
    (value : Json) (key : String)
    → is_record (property_of value key) ≡ true
    → is_truthy value ≡ true
truthy_of (object fields) key h = refl
truthy_of value key h = absurd (ground (arith, h))

not_of_run :
    (value : Json) (run : String)
    → (not (run == "") && not (is_text (property_of value "runId") run)) ≡ true
    → ¬ ((run ≡ "") ⊎ (is_text (property_of value "runId") run ≡ true))
not_of_run value run h (inl e) = ground (arith, h, (string_eq.beq_iff run "").1 e)
not_of_run value run h (inr t) = ground (arith, h, t)

validate_observation-Validated :
    (value : Json) (group run : String)
    → Validated value group run (validate_observation value group run)
unfolding validate_observation
validate_observation-Validated value group run =
    let broken = not (is_truthy value) || not (is_record (property_of value "metrics")) in
    let other =
      not (is_text (property_of value "id") group)
      || not (is_text (property_of value "mode") "live") in
    let other_run = not (run == "") && not (is_text (property_of value "runId") run) in
    elim (Bool-cases broken) [
      | inl b ↦ rw b (inr (_, refl, λ m. ground (arith, b, m.3, truthy_of value "metrics" m.3)))
      | inr b ↦ elim (Bool-cases other) [
        | inl f ↦ rw (b, f) (inr (_, refl, λ m. ground (arith, f, m.0, m.1)))
        | inr f ↦ elim (Bool-cases other_run) [
          | inl r ↦ rw (b, f, r) (inr (_, refl, λ m. not_of_run value run r m.2))
          | inr r ↦
              rw (b, f, r)
                (inl (
                  refl,
                  (
                    ground (arith, f),
                    ground (arith, f),
                    elim (Bool-cases (run == "")) [
                      | inl e ↦ inl ((string_eq.beq_iff run "").0 e)
                      | inr e ↦ inr (ground (arith, r, e))
                    ],
                    ground (arith, b),
                  ),
                ))
        ]
      ]
    ]

provenance_of :
    (value : Json) → property_of (with_provenance value) "provenance" ≡ legacy_provenance
provenance_of (object fields) = put fields
  where
    put :
        (fs : Fields)
        → property_of (object (put_field fs "provenance" legacy_provenance)) "provenance"
          ≡ legacy_provenance
    put end = refl
    put (field k v fs) = ground (arith, put fs)
provenance_of value = refl

-- After 404 of the newer request.
abbrev pub Older : Promised Json → String → String → Promised Json → Type 0
Older v1 group run result =
    ((later : Failure) × (v1 ≡ rejected later) × (result ≡ rejected later))
    ⊎ ((value : Json) × (v1 ≡ resolved value)
        × (property_of (with_provenance value) "provenance" ≡ legacy_provenance)
        × Validated (with_provenance value) group run result)

-- The result, and whether the second request is made.
abbrev pub Fetched : Promised Json → Promised Json → String → String → Promised Json × Bool → Type 0
Fetched (resolved value) v1 group run r = (r.1 ≡ false) × Validated value group run r.0
Fetched (rejected why) v1 group run r =
    ((is_missing why ≡ false) × (r.1 ≡ false) × (r.0 ≡ rejected why))
    ⊎ ((is_missing why ≡ true) × (r.1 ≡ true) × Older v1 group run r.0)

-- Every outcome of the two requests. A snapshot of the newer request is validated, and the older one is
-- not made. A failure of the newer request other than 404 is the result, and the older one is not
-- made. After 404 the older request is made; its failure is the result, and its snapshot is marked with
-- the older provenance and validated. What is validated is the result exactly where it is a snapshot of
-- the group and the run that were asked for, in live mode, with its metrics, and an error otherwise.
pub fetch_observation-Matches :
    (v2 v1 : Promised Json) (group run : String)
    → Fetched v2 v1 group run (fetch_observation v2 v1 group run)
unfolding fetch_observation
fetch_observation-Matches (resolved value) v1 group run =
    (refl, validate_observation-Validated value group run)
fetch_observation-Matches (rejected why) (rejected later) group run =
    elim (Bool-cases (is_missing why)) [
      | inr m ↦ rw m (inl (refl, refl, refl))
      | inl m ↦ rw m (inr (refl, refl, inl (later, refl, refl)))
    ]
fetch_observation-Matches (rejected why) (resolved value) group run =
    elim (Bool-cases (is_missing why)) [
      | inr m ↦ rw m (inl (refl, refl, refl))
      | inl m ↦ rw m (
          inr (
            refl,
            refl,
            inr (
              value,
              refl,
              provenance_of value,
              validate_observation-Validated (with_provenance value) group run,
            ),
          ))
    ]
