-- ===== src/Workspace/Menu.antt =====
-- apps/web/src/operator/navigation.ts: the sections, groups and pages of the console.
use Prim.Native.String.{◌++◌ as ◌+s◌}
use montlok_terminal.Prelude.{
  String, List, [], ◌∷◌, ◌++◌, Option, none, some, map, if◌then◌else◌, ◌==◌, string_eq,
}

pub record NavigationPage : Type 0 where
  pub path : String
  pub name : String
  pub component : Option String

pub record NavigationGroup : Type 0 where
  pub path : String
  pub name : String
  pub pages : List NavigationPage

pub record NavigationSection : Type 0 where
  pub path : String
  pub name : String
  pub icon : String
  pub groups : List NavigationGroup

abbrev group_page : String → String × String × Option String → NavigationPage
group_page base (slug, label, component) = record {
  path = base +s "/" +s slug;
  name = label;
  component = component;
}

abbrev group : String → String → List (String × String × Option String) → NavigationGroup
group base name pages = record { path = base; name = name; pages = map (group_page base) pages }

abbrev product_name : String → String
product_name product =
    if product == "swap" then "永续" else if product == "futures" then "交割" else "期权"

abbrev product_group : String → NavigationGroup
product_group product = group ("/trade/" +s product) (product_name product) (
    ("orders", "委托", none)
    ∷ ("positions", "持仓", none)
    ∷ ("algo", "条件单", none)
    ∷ ("fills", "成交", none)
    ∷ [])

abbrev workspace_section : NavigationSection
workspace_section = record {
  path = "/workspace";
  name = "工作台";
  icon = "DashboardOutlined";
  groups =
      group "/workspace/portfolio" "组合" (("overview", "总览", some "./Portfolio") ∷ [])
      ∷ group "/workspace/execution" "执行" (("overview", "执行质量", some "./ExecutionAnalytics") ∷ [])
      ∷ [];
}

abbrev market_section : NavigationSection
market_section = record {
  path = "/market";
  name = "行情";
  icon = "LineChartOutlined";
  groups =
      group "/market/prices" "市场" (
        ("quotes", "行情", some "./MarketData")
        ∷ ("depth", "订单簿", some "./MarketData")
        ∷ ("candles", "K 线", some "./MarketData")
        ∷ ("instruments", "交易品种", none)
        ∷ [])
      ∷ group "/market/data" "数据" (
          ("derivatives", "合约数据", none)
          ∷ ("statistics", "市场统计", none)
          ∷ ("indicators", "技术指标", none)
          ∷ ("screen", "筛选器", none)
          ∷ [])
      ∷ group "/market/research" "资讯" (
          ("news", "新闻", none)
          ∷ ("calendar", "财经日历", none)
          ∷ ("sentiment", "市场情绪", none)
          ∷ ("traders", "交易员", none)
          ∷ [])
      ∷ [];
}

abbrev trade_section : NavigationSection
trade_section = record {
  path = "/trade";
  name = "交易";
  icon = "StockOutlined";
  groups =
      (group "/trade/spot" "现货" (
          ("terminal", "交易", some "./Terminal")
          ∷ ("orders", "委托", none)
          ∷ ("algo", "条件单", none)
          ∷ ("fills", "成交", none)
          ∷ [])
        ∷ map product_group ("swap" ∷ "futures" ∷ "option" ∷ []))
      ++ (group "/trade/event" "事件合约"
            (("orders", "委托", none) ∷ ("positions", "市场", none) ∷ ("fills", "成交", none) ∷ [])
          ∷ group "/trade/execution" "执行"
              (("orders", "批量委托", none) ∷ ("spread", "价差交易", none) ∷ ("block", "大宗交易", none) ∷ [])
          ∷ []);
}

abbrev assets_section : NavigationSection
assets_section = record {
  path = "/assets";
  name = "资产";
  icon = "WalletOutlined";
  groups =
      group "/assets/account" "账户" (
        ("overview", "总览", some "./Account")
        ∷ ("trading", "交易账户", none)
        ∷ ("funding", "资金账户", none)
        ∷ ("positions", "持仓", none)
        ∷ [])
      ∷ group "/assets/funds" "资金" (
          ("transfer", "划转", none)
          ∷ ("deposit", "充币", none)
          ∷ ("withdraw", "提币", none)
          ∷ ("bills", "账单", none)
          ∷ ("fees", "费率", none)
          ∷ ("conversion", "兑换", none)
          ∷ [])
      ∷ group "/assets/earn" "赚币" (
          ("flexible", "活期", none)
          ∷ ("fixed", "定期", none)
          ∷ ("onchain", "链上赚币", none)
          ∷ ("dual", "双币赢", none)
          ∷ ("loan", "借贷", none)
          ∷ [])
      ∷ [];
}

abbrev strategies_section : NavigationSection
strategies_section = record {
  path = "/strategies";
  name = "策略";
  icon = "FundProjectionScreenOutlined";
  groups =
      group "/strategies/groups" "策略组" (("overview", "总览", some "./StrategyGroups") ∷ [])
      ∷ group "/strategies/resources" "策略资源" (
          ("artifacts", "模型与因子", some "./Artifacts")
          ∷ ("models", "模型发布", some "./ModelReleases")
          ∷ [])
      ∷ group "/strategies/research" "历史" (("history", "运行历史", some "./ResearchHistory") ∷ [])
      ∷ group "/strategies/bots" "交易策略" (
          ("grid", "网格", none)
          ∷ ("dca", "马丁格尔", none)
          ∷ ("recurring", "定投", none)
          ∷ ("signal", "信号策略", none)
          ∷ [])
      ∷ group "/strategies/copy" "跟单" (("trading", "跟单交易", none) ∷ [])
      ∷ [];
}

abbrev engine_section : NavigationSection
engine_section = record {
  path = "/engine";
  name = "引擎";
  icon = "ClusterOutlined";
  groups =
      group "/engine/run" "运行" (
        ("overview", "总览", some "./Engine")
        ∷ ("positions", "持仓", some "./Engine")
        ∷ ("orders", "委托", some "./Engine")
        ∷ ("fills", "成交", some "./Engine")
        ∷ ("strategies", "策略", some "./Engine")
        ∷ ("config", "参数", some "./Engine")
        ∷ ("health", "监控", some "./Engine")
        ∷ [])
      ∷ [];
}

abbrev settings_section : NavigationSection
settings_section = record {
  path = "/settings";
  name = "设置";
  icon = "SettingOutlined";
  groups =
      group "/settings/accounts" "账户" (
        ("connections", "API 连接", some "./Connections")
        ∷ ("preferences", "账户设置", none)
        ∷ ("subaccounts", "子账户", none)
        ∷ [])
      ∷ group "/settings/system" "系统" (
          ("operations", "操作记录", some "./Operations")
          ∷ ("requests", "接口记录", none)
          ∷ ("status", "服务状态", none)
          ∷ ("server", "宝塔面板", some "./Server")
          ∷ ("skills", "扩展", none)
          ∷ ("affiliate", "返佣", none)
          ∷ [])
      ∷ group "/settings/developer" "开发者" (("api", "接口浏览器", none) ∷ ("native", "引擎接口", none) ∷ [])
      ∷ [];
}

unfoldable pub navigation : List NavigationSection
navigation =
    workspace_section ∷ market_section ∷ trade_section ∷ assets_section ∷ strategies_section
    ∷ engine_section ∷ settings_section ∷ []
