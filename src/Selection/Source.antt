-- ===== src/Selection/Source.antt =====
-- apps/web/src/models/operator.ts: one source of events at a time.
use montlok_terminal.Prelude.{
  ℕ, ◌≡◌, ◌⊎◌, refl, inl, inr, Bool, true, false, ◌||◌, ◌∙◌, List, [], ◌∷◌, Option, none, some,
  arith, if◌then◌else◌, ◌==◌, nat_eq, Bool-cases, Option-cases,
}
use montlok_terminal.Json.{Json}
use montlok_terminal.Selection.Account.{
  Account, new_account, close_events, open_events, connected, on_message, hide, show, Event,
  session_ready, session_failed, message, source_failed, source_opened, hides, shows, unmounted,
  account_arrives, profiles_arrive, catalog_arrives, refreshed, refresh_failed, step, run,
}

abbrev listed : Option ℕ → List ℕ
listed none = []
listed (some n) = n ∷ []

-- Only the last source is open, and none while the page is hidden or gone.
abbrev pub IsSingle : Account → Type 0
IsSingle s =
    (s.open_sources ≡ [])
    ⊎ ((s.open_sources ≡ listed s.events) × (s.disposed ≡ false) × (s.suspended ≡ false))

close_events-closes :
    (s t : Account)
    → IsSingle s
    → t.open_sources ≡ s.open_sources
    → t.events ≡ s.events
    → (close_events t).open_sources ≡ []
unfolding close_events
close_events-closes s t (inl h) o e = ground (arith, h, o, Option-cases t.events)
close_events-closes s t (inr h) o e = ground (arith, h.0, o, e, Option-cases t.events)

if-IsSingle : (b : Bool) (s t : Account) → IsSingle s → IsSingle t → IsSingle (if b then s else t)
if-IsSingle true s t h k = h
if-IsSingle false s t h k = k

open_events-IsSingle :
    (s : Account) → IsSingle s → s.disposed ≡ false → s.suspended ≡ false → IsSingle (open_events s)
unfolding open_events close_events
open_events-IsSingle s h d p = inr (ground (arith, close_events-closes s s h refl refl), d, p)

-- What an event leaves alone stays single.
same-IsSingle :
    (s s' : Account)
    → s'.open_sources ≡ s.open_sources
    → s'.events ≡ s.events
    → s'.disposed ≡ s.disposed
    → s'.suspended ≡ s.suspended
    → IsSingle s
    → IsSingle s'
same-IsSingle s s' o e d p (inl h) = inl (o ∙ h)
same-IsSingle s s' o e d p (inr h) = inr (ground (arith, o, e, h), d ∙ h.1, p ∙ h.2)

connected-IsSingle : (s : Account) → IsSingle s → IsSingle (connected s)
unfolding connected
connected-IsSingle s h = elim (Bool-cases (s.connects == 0)) [
  | inl q ↦ rw q h
  | inr q ↦ rw q (elim (Bool-cases (s.disposed || s.suspended)) [
    | inl r ↦ rw r h
    | inr r ↦ rw r (open_events-IsSingle _ h (ground (arith, r)) (ground (arith, r)))
  ])
]

show-IsSingle : (s : Account) (persisted : Bool) → IsSingle s → IsSingle (show s persisted)
unfolding show
show-IsSingle s true (inl h) = inl h
show-IsSingle s true (inr h) = inr (h.0, h.1, refl)
show-IsSingle s false h = h

step-IsSingle : (s : Account) (e : Event) → IsSingle s → IsSingle (step s e)
unfolding step on_message hide show
step-IsSingle s session_ready h = connected-IsSingle s h
step-IsSingle s session_failed h = h
step-IsSingle s (message n account epoch) h =
    same-IsSingle s (step s (message n account epoch)) (ground arith) (ground arith) (ground arith)
      (ground arith) h
step-IsSingle s (source_failed n) h =
    same-IsSingle s (step s (source_failed n)) (ground arith) (ground arith) (ground arith)
      (ground arith) h
step-IsSingle s (source_opened n) h =
    same-IsSingle s (step s (source_opened n)) (ground arith) (ground arith) (ground arith)
      (ground arith) h
step-IsSingle s hides h =
    if-IsSingle s.disposed s (hide s) h (inl (close_events-closes s _ h refl refl))
step-IsSingle s (shows persisted) h =
    if-IsSingle s.disposed s (show s persisted) h (show-IsSingle s persisted h)
step-IsSingle s unmounted h = inl (close_events-closes s _ h refl refl)
step-IsSingle s (account_arrives account) h = h
step-IsSingle s (profiles_arrive profiles epoch) h = h
step-IsSingle s (catalog_arrives catalog) h = h
step-IsSingle s refreshed h = h
step-IsSingle s (refresh_failed reason) h = h

run-IsSingle_from : (s : Account) (es : List Event) → IsSingle s → IsSingle (run s es)
unfolding run
run-IsSingle_from s [] h = h
run-IsSingle_from s (e ∷ es) h = run-IsSingle_from (step s e) es (step-IsSingle s e h)

-- Whatever happens to the page and to the sessions that it waits for, and in whatever order: at most
-- the last source of events is open, and none is while the page is hidden or after it was left.
pub run-IsSingle :
    (account profiles catalog : Json) (es : List Event)
    → IsSingle (run (new_account account profiles catalog) es)
run-IsSingle account profiles catalog es =
    run-IsSingle_from (new_account account profiles catalog) es (inl refl)
