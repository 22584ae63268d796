-- ===== src/Stream/Retries.antt =====
-- packages/sdk-ts/src/client.ts: what a stopped client does, and how long a running one waits.
use native.Mathlib.Nat.{pow-suc}
use montlok_terminal.Prelude.{
  ℕ, zero, suc, ◌+◌, ◌*◌, ◌≤◌, ◌<◌, ◌≡◌, refl, inl, inr, Bool, true, false, List, [], ◌∷◌, ◌++◌,
  some, map, arith, min, nat_eq, Bool-cases, All, All-append,
}
use montlok_terminal.Stream.Store.{notify, fire}
use montlok_terminal.Stream.Client.{
  TerminalClient, Done, Effect, open_socket, send_message, set_timeout, Event, started, ClientCodec,
  close_id, close_current, start_timer, set_context, clear_retry, stop, dispose_client, perform,
  backoff, on_close, on_socket_error, step,
}
use montlok_terminal.Stream.Connection.{IsStopped}

-- An effect that reaches the network or sets a retry going.
abbrev pub is_active : Effect → Bool
is_active (open_socket n) = true
is_active (send_message n m) = true
is_active (set_timeout t delay) = true
is_active _ = false

abbrev pub is_start : Event → Bool
is_start (started context topics) = true
is_start _ = false

abbrev Silent : Done → Type 0
Silent d = IsStopped d.0 × All (λ f. is_active f ≡ false) d.1

perform_notices-Silent :
    (c : TerminalClient) (ls : List ℕ) → IsStopped c → Silent (perform c (map notify ls))
unfolding perform
perform_notices-Silent c [] h = (h, tt)
perform_notices-Silent c (l ∷ ls) h =
    let (h', quiet) = perform_notices-Silent c ls h in (h', (refl, quiet))

stop-Silent : (c : TerminalClient) → IsStopped c → Silent (stop c)
unfolding stop clear_retry close_current close_id
stop-Silent c h = ground (arith, h)

step-Silent :
    (codec : ClientCodec) (c : TerminalClient) (e : Event)
    → IsStopped c
    → is_start e ≡ false
    → Silent (step codec c e)
unfolding step dispose_client on_socket_error set_context on_close fire
step-Silent codec c (started context topics) h g = absurd (ground arith)
step-Silent codec c (Event.context_set context uuid) h g = ground (arith, h)
step-Silent codec c Event.stops h g = stop-Silent c h
step-Silent codec c Event.disposed h g =
    let (h', quiet) = stop-Silent c h in
    (h', All-append (λ f. is_active f ≡ false) (stop c).1 [] quiet tt)
step-Silent codec c (Event.opened n uuid) h g = ground (arith, h)
step-Silent codec c (Event.received n bytes) h g = ground (arith, h)
step-Silent codec c (Event.closed n jitter) h g = ground (arith, h)
step-Silent codec c (Event.failed n) h g = (h, (refl, tt))
step-Silent codec c (Event.retry_due t) h g = ground (arith, h)
step-Silent codec c Event.view_due h g = elim (Bool-cases c.store.notify_timer) [
  | inl q ↦ rw q (perform_notices-Silent _ c.store.listeners h)
  | inr q ↦ rw q (h, tt)
]

pub effects : ClientCodec → TerminalClient → List Event → List Effect
effects codec c [] = []
effects codec c (e ∷ es) = let (c', now) = step codec c e in now ++ effects codec c' es

-- A stopped client stays silent until it is started: whatever is done with it and whatever the browser
-- still delivers, it opens no socket, sends no message and sets no retry timer.
pub stopped-Silent :
    (codec : ClientCodec) (c : TerminalClient) (es : List Event)
    → IsStopped c
    → All (λ e. is_start e ≡ false) es
    → All (λ f. is_active f ≡ false) (effects codec c es)
unfolding effects
stopped-Silent codec c [] h g = tt
stopped-Silent codec c (e ∷ es) h g =
    let (h', quiet) = step-Silent codec c e h g.0 in
    All-append (λ f. is_active f ≡ false) (step codec c e).1 _ quiet
      (stopped-Silent codec (step codec c e).0 es h' g.1)

backoff_zero : backoff 0 ≡ 250
unfolding backoff
backoff_zero = refl

backoff-suc : (r : ℕ) → backoff (suc r) ≡ min 10000 (2 * backoff r)
unfolding backoff
backoff-suc r = omega (arith, pow-suc 2 r)

backoff_bounds : (r : ℕ) → (250 ≤ backoff r) × (backoff r ≤ 10000)
backoff_bounds zero = omega (arith, backoff_zero)
backoff_bounds (suc r) = omega (arith, backoff-suc r, backoff_bounds r)

-- When a running client loses its socket it sets one timer and counts the attempt. The delay is a
-- quarter of a second at the first attempt, doubles with each further one up to ten seconds, and has
-- the random part, below 200 ms, on top: so it lies between 250 and 10199 ms.
pub on_close-retries :
    (c : TerminalClient) (n jitter : ℕ)
    → c.socket ≡ some n
    → c.stopped ≡ false
    → jitter < 200
    → let (c', now) = on_close c n jitter in
      (now ≡ set_timeout c.next_id (backoff c.retries + jitter) ∷ [])
      × (c'.retry ≡ some c.next_id)
      × (c'.retries ≡ suc c.retries)
      × (backoff 0 ≡ 250)
      × (backoff (suc c.retries) ≡ min 10000 (2 * backoff c.retries))
      × (250 ≤ backoff c.retries + jitter)
      × (backoff c.retries + jitter ≤ 10199)
unfolding on_close start_timer
on_close-retries c n jitter s r j = (
  ground arith,
  ground arith,
  ground arith,
  backoff_zero,
  backoff-suc c.retries,
  omega (arith, backoff_bounds c.retries),
  omega (arith, backoff_bounds c.retries),
)
