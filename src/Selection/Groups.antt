-- ===== src/Selection/Groups.antt =====
-- apps/web/src/pages: strategy groups (StrategyGroups/groupModel.ts), what their status is called and
-- warns of, and which data belongs to the group and run that are selected (with
-- Portfolio/portfolioModel.ts). Only the fields that these functions read are kept.
use montlok_terminal.Prelude.{
  String, ◌≡◌, refl, ap, Bool, true, false, ◌&&◌, ◌||◌, List, [], ◌∷◌, Option, none, some, arith,
  if◌then◌else◌, ◌==◌, string_eq, get_or,
}
use montlok_terminal.JsMap.{get}

pub record StrategyGroup : Type 0 where
  pub id : String
  pub run_id : Option String
  pub status : String
  pub mode : Option String

pub record GroupEquity : Type 0 where
  pub group_id : String
  pub run_id : Option String

abbrev status_labels : List (String × String)
status_labels =
    ("running", "运行中")
    ∷ ("stopped", "已停止")
    ∷ ("halted", "已暂停")
    ∷ ("reducing", "仅减仓")
    ∷ ("recovering", "恢复中")
    ∷ ("error", "运行异常")
    ∷ ("unknown", "状态核对中")
    ∷ ("completed", "已结束")
    ∷ ("stale", "数据延迟")
    ∷ ("unavailable", "数据连接中")
    ∷ ("pending_validation", "配置检查中")
    ∷ ("ready", "待运行")
    ∷ ("interrupted", "运行中断")
    ∷ ("engine_stopped", "进程收尾中")
    ∷ ("starting", "启动中")
    ∷ ("stopping", "停止中")
    ∷ ("failed", "运行失败")
    ∷ ("unresponsive", "引擎响应超时")
    ∷ []

-- A status is none of the names that every object of the language has.
unfoldable pub status_label : String → String
status_label status = get_or (get status_labels status) "状态核对中"

abbrev is_mode : Option String → String → Bool
is_mode none m = false
is_mode (some n) m = n == m

unfoldable pub execution_mode_label : Option String → String
execution_mode_label mode =
    if is_mode mode "live"
    then "OKX 实盘"
    else if is_mode mode "shadow"
    then "研究评估"
    else if is_mode mode "nautilus_sandbox"
    then "研究回放"
    else "运行配置"

pub data Severity : Type 0 where
  info warning error : Severity

unfoldable pub state_warning : String → Option (Severity × String)
state_warning status =
    if status == "halted"
    then some (info, "已暂停开仓；当前持仓与行情仍持续监控，可按需恢复运行")
    else if status == "error"
    then some (error, "引擎运行异常，请检查运行健康与异常记录")
    else if status == "reducing"
    then some (warning, "引擎处于仅减仓状态")
    else if status == "recovering"
    then some (warning, "引擎正在恢复交易连接")
    else if status == "unknown"
    then some (warning, "引擎交易状态正在核对")
    else none

-- `id` and `groupId` of a value, of which either may be missing
unfoldable pub matching_group :
    {T : Type 0} → (T → Option String) → (T → Option String) → Option T → String → Option T
matching_group id_of group_id_of none id = none
matching_group id_of group_id_of (some value) id =
    let own : Option String = elim (id_of value) [ some i ↦ some i | none ↦ group_id_of value ] in
    if is_mode own id then some value else none

abbrev same_run : Option String → Option String → Bool
same_run none none = true
same_run (some a) (some b) = a == b
same_run _ _ = false

unfoldable pub matching_portfolio : StrategyGroup → GroupEquity → String → String → Bool
matching_portfolio group equity group_id selected_run =
    group.id == group_id
    && equity.group_id == group_id
    && same_run group.run_id equity.run_id
    && (selected_run == "" || is_mode group.run_id selected_run)

same_run-eq : (a b : Option String) → same_run a b ≡ true → a ≡ b
same_run-eq none none h = refl
same_run-eq (some a) (some b) h = ap some ((string_eq.beq_iff a b).0 h)
same_run-eq none (some b) h = absurd (ground (arith, h))
same_run-eq (some a) none h = absurd (ground (arith, h))

-- Data is shown together only where it is of one group and of one run.
pub matching_portfolio-same :
    (group : StrategyGroup) (equity : GroupEquity) (group_id selected_run : String)
    → matching_portfolio group equity group_id selected_run ≡ true
    → (group.id ≡ group_id) × (equity.group_id ≡ group_id) × (group.run_id ≡ equity.run_id)
unfolding matching_portfolio
matching_portfolio-same group equity group_id selected_run h = (
  (string_eq.beq_iff group.id group_id).0 (ground (arith, h)),
  (string_eq.beq_iff equity.group_id group_id).0 (ground (arith, h)),
  same_run-eq group.run_id equity.run_id (ground (arith, h)),
)
