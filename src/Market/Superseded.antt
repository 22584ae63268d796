-- ===== src/Market/Superseded.antt =====
-- apps/web/src/operator/useMarket.ts: what an earlier effect still waits for is never shown.
use montlok_terminal.Prelude.{
  ℕ, suc, ◌≡◌, ◌⊎◌, refl, inl, inr, Bool, true, false, List, [], ◌∷◌, none, some, not, ◌∙◌, arith,
  ◌==◌, nat_eq, string_eq, All, Option-cases, Bool-cases,
}
use montlok_terminal.Prelude.Numbers.{Numbers}
use montlok_terminal.JsMap.{get, set, get-set}
use montlok_terminal.Market.Hook.{Shown}
use montlok_terminal.Market.Effects.{
  Effect, Arrival, definition, snapshot, candles, candles_failed, session_ready, connect_failed,
  socket_open, message, socket_closed, reconnects, flushes, hides, shows, Event, changed, unmounted,
  arrives, Hook, new_hook, new_effect, clean_up, connected, on_close, arrive, cleaned, step, run,
}

-- An arrival for an effect of an earlier generation.
abbrev pub is_late : ℕ → Event → Bool
is_late current (arrives own a) = not (own == current)
is_late current _ = false

module _ {N : Type 0} ⦃n : Numbers N⦄ where
  -- Only the effect of the current generation is not disposed.
  abbrev pub IsCurrent : Hook N → Type 0
  IsCurrent h =
      (own : ℕ) (e : Effect N)
      → get h.effects own ≡ some e
      → (e.disposed ≡ true) ⊎ (own ≡ h.generation)

  arrive-disposed :
      (own current : ℕ) (e : Effect N) (s : Shown N) (a : Arrival)
      → e.disposed ≡ true
      → ((arrive own current e s a).0.disposed ≡ true) × ((arrive own current e s a).1 ≡ s)
  unfolding arrive connected on_close
  arrive-disposed own current e s (definition rows) h = ground (arith, h)
  arrive-disposed own current e s (snapshot fields) h = ground (arith, h)
  arrive-disposed own current e s (candles rows) h = ground (arith, h)
  arrive-disposed own current e s (candles_failed error) h = ground (arith, h)
  arrive-disposed own current e s session_ready h = ground (arith, h)
  arrive-disposed own current e s (connect_failed error) h = ground (arith, h)
  arrive-disposed own current e s socket_open h = ground (arith, h)
  arrive-disposed own current e s (message envelope) h = ground (arith, h)
  arrive-disposed own current e s socket_closed h = ground (arith, h)
  arrive-disposed own current e s (reconnects t) h = ground (arith, h)
  arrive-disposed own current e s flushes h = ground (arith, h)
  arrive-disposed own current e s hides h = ground (arith, h)
  arrive-disposed own current e s (shows persisted) h = ground (arith, h)

  -- Setting an entry that is disposed, or the current one, keeps the rest as it was.
  set-IsCurrent :
      (effects : List (ℕ × Effect N)) (own current : ℕ) (e : Effect N)
      → ((o : ℕ) (x : Effect N) → get effects o ≡ some x → (x.disposed ≡ true) ⊎ (o ≡ current))
      → (e.disposed ≡ true) ⊎ (own ≡ current)
      → (o : ℕ) (x : Effect N) → get (set effects own e) o ≡ some x
      → (x.disposed ≡ true) ⊎ (o ≡ current)
  set-IsCurrent effects own current e h d o x q = elim (Bool-cases (own == o)) [
    | inl p ↦ ground (arith, q, p, get-set effects own e o, d, nat_eq.beq_iff own o)
    | inr p ↦ h o x (ground (arith, q, p, get-set effects own e o))
  ]

  cleaned_absent : (h : Hook N) → get h.effects h.generation ≡ none → cleaned h ≡ h.effects
  unfolding cleaned
  cleaned_absent h p = rw (cleaned, p) refl

  cleaned_present :
      (h : Hook N) (e : Effect N)
      → get h.effects h.generation ≡ some e
      → cleaned h ≡ set h.effects h.generation (clean_up e)
  unfolding cleaned
  cleaned_present h e p = rw (cleaned, p) refl

  clean_up-disposed : (e : Effect N) → (clean_up e).disposed ≡ true
  unfolding clean_up
  clean_up-disposed e = refl

  cleaned-disposed :
      (h : Hook N)
      → IsCurrent h
      → (o : ℕ) (x : Effect N) → get (cleaned h) o ≡ some x
      → x.disposed ≡ true
  cleaned-disposed h c o x q = elim (Option-cases (get h.effects h.generation)) [
    | inl p ↦
        let q' : get h.effects o ≡ some x = ground (arith, q, cleaned_absent h p) in
        elim (c o x q') [ inl d ↦ d | inr e ↦ absurd (ground (arith, e, p, q')) ]
    | inr (e, p) ↦ elim (Bool-cases (h.generation == o)) [
      | inl r ↦ ground (
        arith,
        q,
        r,
        cleaned_present h e p,
        get-set h.effects h.generation (clean_up e) o,
        clean_up-disposed e,
      )
      | inr r ↦
          let q' : get h.effects o ≡ some x =
            ground
              (arith, q, r, cleaned_present h e p, get-set h.effects h.generation (clean_up e) o) in
          elim (c o x q') [
            | inl d ↦ d
            | inr e' ↦ absurd (ground (arith, r, e', nat_eq.beq_iff h.generation o))
          ]
    ]
  ]

  step-IsCurrent : (h : Hook N) (e : Event) → IsCurrent h → IsCurrent (step h e)
  unfolding step
  step-IsCurrent h (changed instrument) c = elim (Bool-cases (instrument == "")) [
    | inl q ↦ rw q (λ o x p. inl (cleaned-disposed h c o x p))
    | inr q ↦ rw q (
        set-IsCurrent (cleaned h) (suc h.generation) (suc h.generation) (new_effect instrument)
          (λ o x p. inl (cleaned-disposed h c o x p)) (inr refl))
  ]
  step-IsCurrent h unmounted c = λ o x p. inl (cleaned-disposed h c o x p)
  step-IsCurrent h (arrives own a) c = elim (Option-cases (get h.effects own)) [
    | inl q ↦ rw (step, q) c
    | inr (e, q) ↦
        rw (step, q)
          (set-IsCurrent h.effects own h.generation (arrive own h.generation e h.shown a).0 c
            (elim (c own e q) [
              | inl d ↦ inl (arrive-disposed own h.generation e h.shown a d).0
              | inr p ↦ inr p
            ]))
  ]

  pub run-IsCurrent : (h : Hook N) (es : List Event) → IsCurrent h → IsCurrent (run h es)
  unfolding run
  run-IsCurrent h [] c = c
  run-IsCurrent h (e ∷ es) c = run-IsCurrent (step h e) es (step-IsCurrent h e c)

  step-late :
      (h : Hook N) (e : Event)
      → IsCurrent h
      → is_late h.generation e ≡ true
      → ((step h e).shown ≡ h.shown) × ((step h e).generation ≡ h.generation)
  unfolding step
  step-late h (changed instrument) c l = absurd (ground arith)
  step-late h unmounted c l = absurd (ground arith)
  step-late h (arrives own a) c l = elim (Option-cases (get h.effects own)) [
    | inl q ↦ rw (step, q) (refl, refl)
    | inr (e, q) ↦
        rw (step, q)
          (
            elim (c own e q) [
              | inl d ↦ (arrive-disposed own h.generation e h.shown a d).1
              | inr p ↦ absurd (ground (arith, l, p, nat_eq.beq_iff own h.generation))
            ],
            refl,
          )
  ]

  run-late :
      (h : Hook N) (late : List Event)
      → IsCurrent h
      → All (λ e. is_late h.generation e ≡ true) late
      → (run h late).shown ≡ h.shown
  unfolding run
  run-late h [] c l = refl
  run-late h (e ∷ es) c l =
      let s = step-late h e c l.0 in
      run-late (step h e) es (step-IsCurrent h e c) (rw s.1 l.1) ∙ s.0

  -- Whatever has happened, in whatever order: answers, messages, socket events and timers of an
  -- effect that a later change of the instrument has replaced change nothing of what is shown.
  pub run-superseded :
      (es late : List Event)
      → All (λ e. is_late (run (new_hook {N = N}) es).generation e ≡ true) late
      → (run (run (new_hook {N = N}) es) late).shown ≡ (run (new_hook {N = N}) es).shown
  run-superseded es late l =
      run-late (run (new_hook {N = N}) es) late
        (run-IsCurrent new_hook es (λ o x p. absurd (ground arith))) l
