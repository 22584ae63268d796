-- ===== src/Console/Poll.antt =====
-- apps/web/src/operator/usePoll.ts: one effect of `usePoll`, from its start to its clean-up.
-- `hidden` is the browser's `document.visibilityState === 'hidden'`. A step returns the new state and
-- whether it calls `task`. A call of `task` ends by the event `settled`, in success or in failure.
use montlok_terminal.Prelude.{Bool, true, false, not, ◌&&◌, ◌||◌, if◌then◌else◌}

pub record Poll : Type 0 where
  pub aborted : Bool
  pub in_flight : Bool
  pub queued : Bool
  pub hidden : Bool

abbrev pub Ran : Type 0
Ran = Poll × Bool

-- `run`, up to its `await`
unfoldable pub run_task : Poll → Bool → Ran
run_task s force =
    if s.aborted || s.hidden
    then (s, false)
    else if s.in_flight
    then (record s { queued = s.queued || force }, false)
    else (record s { in_flight = true }, true)

-- the `finally` of `run`
unfoldable pub settle : Poll → Ran
settle s =
    let s' = record s { in_flight = false } in
    if s'.queued && not s'.aborted
    then run_task (record s' { queued = false }) false
    else (s', false)

-- the effect itself, where the page is hidden or not
unfoldable pub start_poll : Bool → Ran
start_poll hidden =
    run_task (record { aborted = false; in_flight = false; queued = false; hidden = hidden }) false

-- the function that the effect returns
unfoldable pub stop_poll : Poll → Poll
stop_poll s = record s { aborted = true }

pub data Event : Type 0 where
  interval : Event
  refresh : Event
  visibility : Bool → Event
  settled : Event
  unmounted : Event

-- The clean-up removes the timer and both listeners, so after it only a task can still settle.
unfoldable pub step : Poll → Event → Ran
step s interval = if s.aborted then (s, false) else run_task s false
step s refresh = if s.aborted then (s, false) else run_task s true
step s (visibility hidden) =
    let s' = record s { hidden = hidden } in
    if s.aborted || hidden then (s', false) else run_task s' true
step s settled = if s.in_flight then settle s else (s, false)
step s unmounted = (stop_poll s, false)
