-- ===== src/Console/PollRuns.antt =====
-- apps/web/src/operator/usePoll.ts: tasks do not overlap, and a forced refresh is not lost.
use montlok_terminal.Prelude.{
  ◌≡◌, ◌⊎◌, refl, inl, inr, Bool, true, false, List, [], ◌∷◌, ◌++◌, arith, if◌then◌else◌, All,
  Bool-cases,
}
use montlok_terminal.Console.Poll.{
  Poll, run_task, settle, stop_poll, Event, interval, refresh, visibility, settled, unmounted, step,
}

pub data Mark : Type 0 where
  begins ends : Mark

-- What one event shows of the task: that it ended, that it was called.
abbrev pub marks : Poll → Event → List Mark
marks s settled =
    (if s.in_flight then ends ∷ [] else []) ++ (if (step s settled).1 then begins ∷ [] else [])
marks s e = if (step s e).1 then begins ∷ [] else []

pub log : Poll → List Event → List Mark
log s [] = []
log s (e ∷ es) = marks s e ++ log (step s e).0 es

pub run : Poll → List Event → Poll
run s [] = s
run s (e ∷ es) = run (step s e).0 es

-- Calls and ends alternate; `busy` says whether a call is open.
abbrev pub alternates : Bool → List Mark → Bool
alternates busy [] = true
alternates false (begins ∷ ms) = alternates true ms
alternates true (ends ∷ ms) = alternates false ms
alternates _ _ = false

step-alternates :
    (s : Poll) (e : Event) (ms : List Mark)
    → alternates s.in_flight (marks s e ++ ms) ≡ alternates (step s e).0.in_flight ms
unfolding step settle run_task stop_poll
step-alternates s interval ms = ground arith
step-alternates s refresh ms = ground arith
step-alternates s (visibility hidden) ms = ground arith
step-alternates s settled ms = ground arith
step-alternates s unmounted ms = ground arith

-- Whatever happens in whatever order, timers, refreshes, changes of visibility and the end of the
-- effect: the task is never called again before its last call has settled.
pub log-alternates : (s : Poll) (es : List Event) → alternates s.in_flight (log s es) ≡ true
unfolding log
log-alternates s [] = refl
log-alternates s (e ∷ es) =
    ground (arith, step-alternates s e (log (step s e).0 es), log-alternates (step s e).0 es)

-- An event that neither ends the task, nor hides the page, nor ends the effect.
abbrev pub is_quiet : Event → Bool
is_quiet interval = true
is_quiet refresh = true
is_quiet (visibility hidden) = if hidden then false else true
is_quiet _ = false

-- A refresh waits for the task that runs.
abbrev Waits : Poll → Type 0
Waits s = (s.aborted ≡ false) × (s.hidden ≡ false) × (s.in_flight ≡ true) × (s.queued ≡ true)

step-Waits : (s : Poll) (e : Event) → Waits s → is_quiet e ≡ true → Waits (step s e).0
unfolding step run_task
step-Waits s interval h q = ground (arith, h)
step-Waits s refresh h q = ground (arith, h)
step-Waits s (visibility hidden) h q = ground (arith, h)
step-Waits s settled h q = absurd (ground arith)
step-Waits s unmounted h q = absurd (ground arith)

run-Waits :
    (s : Poll) (es : List Event) → Waits s → All (λ e. is_quiet e ≡ true) es → Waits (run s es)
unfolding run
run-Waits s [] h q = h
run-Waits s (e ∷ es) h q = run-Waits (step s e).0 es (step-Waits s e h q.0) q.1

settle-Waits : (s : Poll) → Waits s → (step s settled).1 ≡ true
unfolding step settle run_task
settle-Waits s h = ground (arith, h)

-- A refresh of a page that is shown is served: either the task is called at once, or a call runs
-- already, and then, while the page stays shown, the task is called anew as soon as that call
-- settles, whatever comes in between.
pub refresh-served :
    (s : Poll) (es : List Event)
    → s.aborted ≡ false
    → s.hidden ≡ false
    → All (λ e. is_quiet e ≡ true) es
    → ((step s refresh).1 ≡ true)
      ⊎ ((s.in_flight ≡ true) × ((step (run (step s refresh).0 es) settled).1 ≡ true))
unfolding step run_task
refresh-served s es a h q = elim (Bool-cases s.in_flight) [
  | inl p ↦ inr (p, settle-Waits _ (run-Waits (step s refresh).0 es (ground arith) q))
  | inr p ↦ inl (ground arith)
]

stopped-step :
    (s : Poll) (e : Event)
    → s.aborted ≡ true
    → ((step s e).0.aborted ≡ true) × ((step s e).1 ≡ false)
unfolding step settle run_task stop_poll
stopped-step s interval h = ground arith
stopped-step s refresh h = ground arith
stopped-step s (visibility hidden) h = ground arith
stopped-step s settled h = ground arith
stopped-step s unmounted h = ground arith

marks-stopped :
    (s : Poll) (e : Event) → s.aborted ≡ true → (marks s e ≡ []) ⊎ (marks s e ≡ ends ∷ [])
unfolding step settle run_task stop_poll
marks-stopped s interval h = ground arith
marks-stopped s refresh h = ground arith
marks-stopped s (visibility hidden) h = ground arith
marks-stopped s settled h = ground arith
marks-stopped s unmounted h = inl refl

log-stopped : (s : Poll) (es : List Event) → s.aborted ≡ true → All (λ m. m ≡ ends) (log s es)
unfolding log
log-stopped s [] h = tt
log-stopped s (e ∷ es) h =
    let rest = log-stopped (step s e).0 es (stopped-step s e h).0 in
    elim (marks-stopped s e h) [ inl q ↦ rw q rest | inr q ↦ rw q (refl, rest) ]

-- After the clean-up of the effect nothing calls the task, the end of a call that was running
-- included.
pub unmounted-Silent :
    (s : Poll) (es : List Event) → All (λ m. m ≡ ends) (log (step s unmounted).0 es)
unfolding step stop_poll
unmounted-Silent s es = log-stopped (stop_poll s) es refl
