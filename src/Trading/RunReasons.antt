-- ===== src/Trading/RunReasons.antt =====
-- apps/web/src/operator/StrategyRunPanel.tsx: which actions are possible.
use montlok_terminal.Prelude.{
  String, ◌≡◌, ◌⊎◌, refl, inl, inr, Bool, true, false, not, ◌&&◌, Option, none, some, arith,
  if◌then◌else◌, ◌==◌, string_eq, is_some, Bool-cases,
}
use montlok_terminal.Trading.RunControl.{
  Action, start, halt, reduce, resume, stop, cancel, flatten, Run, Control, Runtime, Group, ◌or◌,
  is_id, eligibility_reason, availability, is_available, is_active, run_refusal, resume_reason,
  status_of, allows, refusal, can_stop_legacy, is_stop, action_reason, eligible, controllable,
}

-- A text is shown where it is not empty.
abbrev pub is_silent : String → Bool
is_silent text = text == ""

or_silent : (a b : String) → is_silent (a or b) ≡ true → (is_silent a ≡ true) × (is_silent b ≡ true)
or_silent a b h = (ground (arith, h), ground (arith, h))

silent_if :
    (b : Bool) (x y : String)
    → is_silent (if b then x else y) ≡ (if b then is_silent x else is_silent y)
silent_if true x y = refl
silent_if false x y = refl

silent_or : (a b : String) → is_silent (a or b) ≡ (is_silent a && is_silent b)
silent_or a b = elim (Bool-cases (a == "")) [ inl q ↦ rw q refl | inr q ↦ rw q q ]

availability-eligible :
    (runtime : Option Runtime) (control : Option Control)
    → is_silent (availability runtime control) ≡ true
    → (is_some control && is_available runtime) ≡ true
availability-eligible none control h = absurd (ground (arith, h))
availability-eligible (some r) control h = ground (
  arith,
  h,
  silent_if (not r.available) (r.reason or "运行服务正在重新连接")
      (if not (is_some control) then "该策略组未配置运行服务" else ""),
  silent_or r.reason "运行服务正在重新连接",
  silent_if (not (is_some control)) "该策略组未配置运行服务" "",
)

eligibility-eligible :
    (admin busy : Bool) (runtime : Option Runtime) (control : Option Control)
    → is_silent (eligibility_reason admin busy runtime control) ≡ true
    → eligible admin busy runtime control ≡ true
unfolding eligibility_reason
eligibility-eligible true true runtime control h = absurd (ground (arith, h))
eligibility-eligible true false runtime control h =
    ground (arith, availability-eligible runtime control h)
eligibility-eligible false busy runtime control h = absurd (ground (arith, h))

run_refusal-active :
    (control : Option Control) (run : Option Run)
    → is_silent (run_refusal control run) ≡ true
    → is_active control run ≡ true
run_refusal-active control none h = absurd (ground (arith, h))
run_refusal-active none (some r) h = absurd (ground (arith, h))
run_refusal-active (some c) (some r) h =
    ground (arith, h, silent_if (is_id c.run_id r.run_id) "" "此实例已结束或不是当前活动实例")

refusal-silent :
    (control : Option Control) (action : Action) (run : Option Run)
    → is_silent (refusal control action run) ≡ false
refusal-silent control start run = refl
refusal-silent control halt run =
    ground (arith, silent_if (status_of run == "halted") "此实例已暂停开仓" "当前状态无需暂停开仓")
refusal-silent control reduce run =
    ground (arith, silent_if (status_of run == "reducing") "此实例已处于仅减仓状态" "当前状态无需切换为仅减仓")
refusal-silent control resume run =
    ground (arith, silent_or (resume_reason control) "仅已暂停或仅减仓的实例可恢复")
refusal-silent control stop run = refl
refusal-silent control cancel run = refl
refusal-silent control flatten run = refl

allowed-silent :
    (control : Option Control) (action : Action) (run : Option Run)
    → is_silent (if allows control action then "" else refusal control action run) ≡ true
    → allows control action ≡ true
allowed-silent control action run h = elim (Bool-cases (allows control action)) [
  | inl q ↦ q
  | inr q ↦ absurd (ground (arith, h, q, refusal-silent control action run))
]

is_stop-eq : (action : Action) → is_stop action ≡ true → action ≡ stop
is_stop-eq stop h = refl
is_stop-eq start h = absurd (ground (arith, h))
is_stop-eq halt h = absurd (ground (arith, h))
is_stop-eq reduce h = absurd (ground (arith, h))
is_stop-eq resume h = absurd (ground (arith, h))
is_stop-eq cancel h = absurd (ground (arith, h))
is_stop-eq flatten h = absurd (ground (arith, h))

pub action_reason-offered :
    (admin busy : Bool) (runtime : Option Runtime) (control : Option Control) (action : Action)
    (run : Option Run) (legacy : Option Group)
    → is_silent (action_reason admin busy runtime control action run legacy) ≡ true
    → ((controllable admin busy runtime control run ≡ true) × (allows control action ≡ true))
      ⊎ ((action ≡ stop) × (can_stop_legacy admin busy legacy ≡ true))
unfolding action_reason controllable
action_reason-offered admin busy runtime control action run legacy h =
    elim (Bool-cases (is_stop action && can_stop_legacy admin busy legacy)) [
      | inl q ↦ inr (is_stop-eq action (ground (arith, q)), ground (arith, q))
      | inr q ↦
          let reason = eligibility_reason admin busy runtime control or run_refusal control run in
          let rest = if allows control action then "" else refusal control action run in
          let both = or_silent reason rest (ground (arith, h, q)) in
          let parts =
            or_silent (eligibility_reason admin busy runtime control) (run_refusal control run)
              both.0 in
          inl (
            ground (
              arith,
              eligibility-eligible admin busy runtime control parts.0,
              run_refusal-active control run parts.1,
            ),
            allowed-silent control action run both.1,
          )
    ]
