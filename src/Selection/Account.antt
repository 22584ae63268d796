-- ===== src/Selection/Account.antt =====
-- apps/web/src/models/operator.ts: the account, the connections and the catalogue that all pages share,
-- and the source of events that keeps the account up to date.
use montlok_terminal.Prelude.{
  ℕ, suc, ◌-◌, String, Bool, true, false, not, ◌&&◌, ◌||◌, List, [], ◌∷◌, Option, none, some,
  if◌then◌else◌, ◌==◌, nat_eq, includes, filter,
}
use montlok_terminal.Prelude.Int.{ℤ, negsuc, lebℤ}
use montlok_terminal.Json.{Json}

-- `connects` and `refreshes` count the calls of `connect` that wait for the session and the calls of
-- `refresh`; `open_sources` are the sources of events that were not closed, `opened` numbers them.
pub record Account : Type 0 where
  pub account : Json
  pub profiles : Json
  pub catalog : Json
  pub error : String
  pub epoch : ℤ
  pub disposed : Bool
  pub suspended : Bool
  pub connects : ℕ
  pub refreshes : ℕ
  pub events : Option ℕ
  pub open_sources : List ℕ
  pub opened : ℕ

-- the state after the effect has started; the three values are the initial ones
abbrev pub new_account : Json → Json → Json → Account
new_account account profiles catalog = record {
  account = account;
  profiles = profiles;
  catalog = catalog;
  error = "";
  epoch = negsuc 0;
  disposed = false;
  suspended = false;
  connects = 1;
  refreshes = 1;
  events = none;
  open_sources = [];
  opened = 0;
}

abbrev same_epoch : ℤ → ℤ → Bool
same_epoch a b = lebℤ a b && lebℤ b a

abbrev pub closed : Option ℕ → List ℕ → List ℕ
closed none sources = sources
closed (some n) sources = filter (λ m. not (m == n)) sources

unfoldable pub close_events : Account → Account
close_events s = record s { open_sources = closed s.events s.open_sources }

-- `connect`, once the session is there
unfoldable pub open_events : Account → Account
open_events s =
    let s' = close_events s in
    record s' {
      events = some s.opened;
      open_sources = s.opened ∷ s'.open_sources;
      opened = suc s.opened;
    }

unfoldable pub connected : Account → Account
connected s =
    let s' = record s { connects = s.connects - 1 } in
    if s.connects == 0 then s else if s.disposed || s.suspended then s' else open_events s'

unfoldable pub on_message : Account → Json → ℤ → Account
on_message s account epoch =
    let s' = record s { account = account; epoch = epoch } in
    if not (same_epoch s.epoch (negsuc 0)) && not (same_epoch s.epoch epoch)
    then record s' { refreshes = suc s.refreshes }
    else s'

unfoldable pub hide : Account → Account
hide s = close_events (record s { suspended = true })

unfoldable pub show : Account → Bool → Account
show s persisted =
    if persisted
    then record s { suspended = false; connects = suc s.connects; refreshes = suc s.refreshes }
    else s

pub data Event : Type 0 where
  session_ready : Event
  session_failed : Event
  message : ℕ → Json → ℤ → Event
  source_failed : ℕ → Event
  source_opened : ℕ → Event
  hides : Event
  shows : Bool → Event
  unmounted : Event
  -- the answers of a refresh, and its end
  account_arrives : Json → Event
  profiles_arrive : Json → ℤ → Event
  catalog_arrives : Json → Event
  refreshed : Event
  refresh_failed : String → Event

-- A source that is closed sends nothing; the clean-up removes both listeners.
unfoldable pub step : Account → Event → Account
step s session_ready = connected s
step s session_failed = record s { connects = s.connects - 1 }
step s (message n account epoch) =
    if includes s.open_sources n then on_message s account epoch else s
step s (source_failed n) =
    if includes s.open_sources n then record s { error = "账户推送连接中断，正在重新连接" } else s
step s (source_opened n) = if includes s.open_sources n then record s { error = "" } else s
step s hides = if s.disposed then s else hide s
step s (shows persisted) = if s.disposed then s else show s persisted
step s unmounted = close_events (record s { disposed = true })
step s (account_arrives account) = record s { account = account }
step s (profiles_arrive profiles epoch) = record s { profiles = profiles; epoch = epoch }
step s (catalog_arrives catalog) = record s { catalog = catalog }
step s refreshed = record s { error = "" }
step s (refresh_failed reason) = record s { error = reason }

unfoldable pub run : Account → List Event → Account
run s [] = s
run s (e ∷ es) = run (step s e) es
