-- ===== src/Trading/RunControl.antt =====
-- apps/web/src/operator/StrategyRunPanel.tsx: what the panel derives from the state of the server: the
-- run that it shows, the inputs of a new run, and why an action is not possible. A value that is only
-- compared and sent is its JSON text; a text that is missing is empty.
use montlok_terminal.Prelude.{
  ℕ, ◌*◌, String, Bool, true, false, not, ◌&&◌, ◌||◌, List, [], ◌∷◌, Option, none, some,
  if◌then◌else◌, ◌==◌, string_eq, get_or, find?, includes, is_some,
}

pub data Action : Type 0 where
  start halt reduce resume stop cancel flatten : Action

pub record Capabilities : Type 0 where
  pub allows : Action → Bool
  pub reason : String
  pub resume_reason : String

pub record Run : Type 0 where
  pub run_id : String
  pub status : String

pub record Control : Type 0 where
  pub group_id : String
  pub run_id : Option String
  pub live : Bool
  pub continuous : Bool
  pub default_settings : Option String
  pub default_budget : String
  pub compatible : Bool
  pub compatibility_reason : String
  -- the operation of a start that is pending
  pub pending_start : String
  pub capabilities : Capabilities
  pub runs : List Run

pub record Runtime : Type 0 where
  pub available : Bool
  pub reason : String
  pub groups : List Control

pub record Group : Type 0 where
  pub id : String
  pub run_id : Option String
  pub managed : Bool
  pub status : String

-- The parts of a receipt that the panel reads.
pub record Receipt : Type 0 where
  pub id : String
  pub action : String
  pub status : String
  pub receipt_status : String
  pub run_id : String
  pub group_id : String
  pub result_status : String
  pub has_error : Bool

-- `text || fallback`
infix 51 ◌or◌
abbrev pub ◌or◌ : String → String → String
a or b = if a == "" then b else a

abbrev pub is_id : Option String → String → Bool
is_id none id = false
is_id (some own) id = own == id

unfoldable pub control_of : Option Runtime → String → Option Control
control_of none selected = none
control_of (some runtime) selected = find? (λ c. c.group_id == selected) runtime.groups

unfoldable pub group_of : List Group → String → Option Group
group_of groups selected = find? (λ g. g.id == selected) groups

-- `selectedRun || (group?.managed ? group.runId : undefined)`
abbrev run_target : Option Group → String → Option String
run_target none run = if run == "" then none else some run
run_target (some group) run =
    if not (run == "") then some run else if group.managed then group.run_id else none

unfoldable pub run_of : Option Control → Option Group → String → Option Run
run_of none group run = none
run_of (some control) group run = find? (λ r. is_id (run_target group run) r.run_id) control.runs

unfoldable pub legacy_of : Option Group → String → Option Group
legacy_of none run = none
legacy_of (some group) run =
    if run == "" && is_some group.run_id && not (get_or group.run_id "" == "") && not group.managed
    then some group
    else none

pub data RunMode : Type 0 where
  continuous timed : RunMode

-- What the operator has entered, `none` where it is untouched.
pub record Entered : Type 0 where
  pub budget : Option String
  pub minutes : Option ℕ
  pub run_mode : Option RunMode
  pub settings : Option String

abbrev is_continuous_mode : Option RunMode → Bool
is_continuous_mode none = true
is_continuous_mode (some continuous) = true
is_continuous_mode (some timed) = false

unfoldable pub is_continuous : Option Control → Option RunMode → Bool
is_continuous none mode = false
is_continuous (some control) mode = control.live && control.continuous && is_continuous_mode mode

pub record Inputs : Type 0 where
  -- of a run that is not live
  pub budget : Option String
  pub duration_seconds : ℕ
  -- of a live run
  pub settings : Option String

abbrev is_live : Option Control → Bool
is_live none = false
is_live (some control) = control.live

abbrev default_settings_of : Option Control → Option String
default_settings_of none = none
default_settings_of (some control) = control.default_settings

abbrev default_budget_of : Option Control → String
default_budget_of none = "2000"
default_budget_of (some control) = control.default_budget or "2000"

abbrev entered_or : Option String → Option String → Option String
entered_or none b = b
entered_or (some a) b = some a

unfoldable pub inputs_of : Option Control → Entered → Inputs
inputs_of control e =
    let seconds = if is_continuous control e.run_mode then 0 else get_or e.minutes 0 * 60 in
    if is_live control
    then record {
      budget = none;
      duration_seconds = seconds;
      settings = entered_or e.settings (default_settings_of control);
    }
    else record {
      budget = some (get_or e.budget (default_budget_of control));
      duration_seconds = seconds;
      settings = none;
    }

abbrev is_pending_status : String → Bool
is_pending_status s = includes ("processing" ∷ "unknown" ∷ []) s

unfoldable pub receipt_unknown : Receipt → Bool
receipt_unknown r = is_pending_status (r.receipt_status or r.status)

unfoldable pub receipt_failed : Receipt → Bool
receipt_failed r =
    not (receipt_unknown r)
    && (r.status == "error"
        || r.status == "failed"
        || r.result_status == "failed"
        || r.receipt_status == "failed"
        || r.has_error)

abbrev starts_pending : Option Receipt → Bool
starts_pending none = false
starts_pending (some r) = r.action == "start" && receipt_unknown r

abbrev pub availability : Option Runtime → Option Control → String
availability none control = "正在读取运行服务状态"
availability (some r) control =
    if not r.available
    then r.reason or "运行服务正在重新连接"
    else if not (is_some control)
    then "该策略组未配置运行服务"
    else ""

unfoldable pub eligibility_reason : Bool → Bool → Option Runtime → Option Control → String
eligibility_reason admin busy runtime control =
    if not admin then "需要操作员权限" else if busy then "上一项请求正在处理" else availability runtime control

abbrev pub start_refusal : Option Control → String
start_refusal none = "等待当前运行结束或更新策略配置"
start_refusal (some c) =
    (if c.compatible then "" else c.compatibility_reason or "当前节点缺少模型需要的运行资源")
    or (if c.capabilities.allows start then "" else c.capabilities.reason or "等待当前运行结束或更新策略配置")

unfoldable pub new_run_reason :
    Bool → Bool → Option Runtime → Option Control → Option Receipt → String
new_run_reason admin busy runtime control receipt =
    eligibility_reason admin busy runtime control
    or ((if starts_pending receipt then "启动请求正在处理" else "") or start_refusal control)

abbrev pub is_active : Option Control → Option Run → Bool
is_active (some c) (some r) = is_id c.run_id r.run_id
is_active _ _ = false

abbrev pub run_refusal : Option Control → Option Run → String
run_refusal control none = "选择一个运行实例"
run_refusal control (some r) = if is_active control (some r) then "" else "此实例已结束或不是当前活动实例"

abbrev pub status_of : Option Run → String
status_of none = ""
status_of (some r) = r.status

abbrev pub allows : Option Control → Action → Bool
allows none action = false
allows (some c) action = c.capabilities.allows action

abbrev pub resume_reason : Option Control → String
resume_reason none = ""
resume_reason (some c) = c.capabilities.resume_reason

-- the reason where the server does not allow the action
abbrev pub refusal : Option Control → Action → Option Run → String
refusal control halt run = if status_of run == "halted" then "此实例已暂停开仓" else "当前状态无需暂停开仓"
refusal control reduce run = if status_of run == "reducing" then "此实例已处于仅减仓状态" else "当前状态无需切换为仅减仓"
refusal control resume run = resume_reason control or "仅已暂停或仅减仓的实例可恢复"
refusal control cancel run = "当前运行未提供撤单控制"
refusal control flatten run = "当前运行未提供平仓控制或正在处理平仓"
refusal control stop run = "当前状态没有可停止的运行进程"
refusal control start run = "等待当前运行结束或更新策略配置"

abbrev pub can_stop_legacy : Bool → Bool → Option Group → Bool
can_stop_legacy admin busy none = false
can_stop_legacy admin busy (some group) = admin && not busy && group.status == "running"

abbrev pub is_stop : Action → Bool
is_stop stop = true
is_stop _ = false

-- `actionReasons`, of every action but the start
unfoldable pub action_reason :
    Bool → Bool → Option Runtime → Option Control → Action → Option Run → Option Group → String
action_reason admin busy runtime control action run legacy =
    if is_stop action && can_stop_legacy admin busy legacy
    then ""
    else (eligibility_reason admin busy runtime control or run_refusal control run)
      or (if allows control action then "" else refusal control action run)

abbrev pub is_available : Option Runtime → Bool
is_available none = false
is_available (some r) = r.available

abbrev pub eligible : Bool → Bool → Option Runtime → Option Control → Bool
eligible admin busy runtime control = admin && is_some control && is_available runtime && not busy

unfoldable pub controllable : Bool → Bool → Option Runtime → Option Control → Option Run → Bool
controllable admin busy runtime control run =
    eligible admin busy runtime control && is_active control run
