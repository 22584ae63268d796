-- ===== src/Stream/Order.antt =====
-- packages/sdk-ts/src/streamStore.ts: the order of delivery over any run of inputs.
use montlok_terminal.Prelude.{
  ℕ, suc, ◌≤◌, ◌<◌, String, ◌≡◌, refl, ◌⊎◌, inl, inr, Bool, true, false, List, [], ◌∷◌, ◌++◌,
  Option, none, some, arith, if◌then◌else◌, string_eq, nat_eq, includes, Distinct, All,
}
use montlok_terminal.Stream.Protocol.{Message}
use montlok_terminal.Stream.Store.{
  TerminalStreamStore, Call, recover, notify, critical, Codec, position, accept, accept_market,
  accept_critical, report_gap, update, fire, on_connecting, on_disconnected,
}
use montlok_terminal.Stream.Runs.{Input, received, step, run}
use montlok_terminal.Stream.Ingest.{
  ingest, ingest_message, begin_snapshot, batch_snapshot, end_snapshot, on_error, on_sequence_gap,
  stage_table, batch_snapshot,
}
use montlok_terminal.Stream.Delivery.{deliveries, commits, quotes, step-Next}

-- No input adds or removes a critical listener.
ingest-critical_listeners :
    (codec : Codec) (s : TerminalStreamStore) (x : Option Message)
    → (ingest codec s (record { message = x })).store.critical_listeners ≡ s.critical_listeners
unfolding ingest ingest_message begin_snapshot batch_snapshot stage_table end_snapshot on_error
    on_sequence_gap accept accept_market accept_critical report_gap update
ingest-critical_listeners codec s none = refl
ingest-critical_listeners codec s (some (Message.snapshot_begin b)) = ground arith
ingest-critical_listeners codec s (some (Message.snapshot_batch b)) = ground arith
ingest-critical_listeners codec s (some (Message.snapshot_end b)) = ground arith
ingest-critical_listeners codec s (some m) = ground arith

step-critical_listeners :
    (codec : Codec) (s : TerminalStreamStore) (i : Input)
    → (step codec s i).store.critical_listeners ≡ s.critical_listeners
unfolding step fire on_connecting on_disconnected update
step-critical_listeners codec s (received m) = ingest-critical_listeners codec s m.message
step-critical_listeners codec s i = ground arith

deliveries-append :
    (l : ℕ) (stream : String) (xs ys : List Call)
    → deliveries l stream (xs ++ ys) ≡ deliveries l stream xs ++ deliveries l stream ys
deliveries-append l stream [] ys = refl
deliveries-append l stream (critical l' e ∷ xs) ys =
    ground (arith, deliveries-append l stream xs ys)
deliveries-append l stream (recover _ _ ∷ xs) ys = deliveries-append l stream xs ys
deliveries-append l stream (notify _ ∷ xs) ys = deliveries-append l stream xs ys

-- No input of the run commits a snapshot.
abbrev pub Uncommitted : Codec → TerminalStreamStore → List Input → Type 0
Uncommitted codec s [] = Unit
Uncommitted codec s (i ∷ is) = (commits s i ≡ false) × Uncommitted codec (step codec s i).store is

-- The numbers rise from above `p` to at most `p'`.
abbrev pub Ascends : ℕ → List ℕ → ℕ → Type 0
Ascends p [] p' = p ≤ p'
Ascends p (q ∷ qs) p' = (p < q) × Ascends q qs p'

-- The numbers are p + 1, p + 2, … up to p', with none left out.
abbrev pub Consecutive : ℕ → List ℕ → ℕ → Type 0
Consecutive p [] p' = p ≡ p'
Consecutive p (q ∷ qs) p' = (q ≡ suc p) × Consecutive q qs p'

Ascends-weaken : (p : ℕ) (qs : List ℕ) (p' : ℕ) → Ascends (suc p) qs p' → Ascends p qs p'
Ascends-weaken p [] p' h = omega arith
Ascends-weaken p (q ∷ qs) p' h = (omega arith, h.1)

-- One step in front of the numbers that follow.
module _ (p p₁ p' : ℕ) (ds qs : List ℕ) where
  Ascends-step :
      (b : Bool)
      → ((p₁ ≡ p) × (ds ≡ [])) ⊎ ((p₁ ≡ suc p) × (ds ≡ (if b then [] else suc p ∷ [])))
      → Ascends p₁ qs p'
      → Ascends p (ds ++ qs) p'
  Ascends-step b (inl (e, n)) h = rw (n, ← e) h
  Ascends-step true (inr (e, n)) h = rw n (Ascends-weaken p qs p' (rw e at h))
  Ascends-step false (inr (e, n)) h = rw n (omega arith, rw e at h)

  Consecutive-step :
      (b : Bool)
      → b ≡ false
      → ((p₁ ≡ p) × (ds ≡ [])) ⊎ ((p₁ ≡ suc p) × (ds ≡ (if b then [] else suc p ∷ [])))
      → Consecutive p₁ qs p'
      → Consecutive p (ds ++ qs) p'
  Consecutive-step b q (inl (e, n)) h = rw (n, ← e) h
  Consecutive-step true q (inr (e, n)) h = absurd (ground arith)
  Consecutive-step false q (inr (e, n)) h = rw n (refl, rw e at h)

module _ (codec : Codec) (l : ℕ) (stream : String) where
  -- As long as no snapshot is committed, whatever messages, timers and connection notices arrive, in
  -- whatever order, with duplicates, gaps, errors, ends of replays and refused snapshots among them: a critical listener is called with
  -- the events of a stream in rising order of their sequence numbers, each at most once, all of them
  -- above the position at the start and none above the position at the end.
  pub run-Ascends :
      (s : TerminalStreamStore) (is : List Input)
      → Distinct s.critical_listeners
      → includes s.critical_listeners l ≡ true
      → Uncommitted codec s is
      → Ascends
          (position s.working.positions stream)
          (deliveries l stream (run codec s is).1)
          (position (run codec s is).0.working.positions stream)
  unfolding run
  run-Ascends s [] d m h = omega arith
  run-Ascends s (i ∷ is) d m h =
      let o = step codec s i in
      let same = step-critical_listeners codec s i in
      rw (deliveries-append l stream o.calls (run codec o.store is).1) (
        Ascends-step (position s.working.positions stream) _ _ _ _ (quotes stream i)
          (step-Next codec s l stream d m i h.0)
          (run-Ascends o.store is (rw same d) (rw same m) h.1))

  -- As long as no snapshot is committed, where the stream carries no quotes, none is left out: the
  -- listener is called with exactly the events from one above the first position up to the last, also
  -- where replays end or snapshots are refused in between.
  pub run-Consecutive :
      (s : TerminalStreamStore) (is : List Input)
      → Distinct s.critical_listeners
      → includes s.critical_listeners l ≡ true
      → Uncommitted codec s is
      → All (λ i. quotes stream i ≡ false) is
      → Consecutive
          (position s.working.positions stream)
          (deliveries l stream (run codec s is).1)
          (position (run codec s is).0.working.positions stream)
  unfolding run
  run-Consecutive s [] d m h q = refl
  run-Consecutive s (i ∷ is) d m h q =
      let o = step codec s i in
      let same = step-critical_listeners codec s i in
      rw (deliveries-append l stream o.calls (run codec o.store is).1) (
        Consecutive-step (position s.working.positions stream) _ _ _ _ (quotes stream i) q.0
          (step-Next codec s l stream d m i h.0)
          (run-Consecutive o.store is (rw same d) (rw same m) h.1 q.1))
