-- ===== src/Console/Sharing.antt =====
-- apps/web/src/operator/api.ts: a read that is shared has not settled.
use montlok_terminal.Prelude.{
  ℕ, ◌<◌, String, ◌≡◌, true, false, List, [], ◌∷◌, some, arith, ◌==◌, nat_eq, string_eq,
  Option-cases, Bool-cases, inl, inr, Distinct,
}
use montlok_terminal.JsMap.{
  get, delete, keys, get-set, get-set_self, get-delete_other, get-delete_self, Distinct-keys-set,
  Distinct-keys-delete,
}
use montlok_terminal.Console.Reads.{
  Reads, read_api, read_settled, write_api, write_settled, Event, reads, settles, writes, written,
  step, no_reads,
}

-- Each promise that is kept under a key is an unsettled read of that key.
record IsLive (r : Reads) : Type 0 where
  live :
      (key : String) (promise : ℕ)
      → get r.pending_reads key ≡ some promise
      → (get r.finals promise ≡ some key) × (promise < r.next_promise)
  distinct : Distinct (keys r.pending_reads)

cleared-IsLive : (r : Reads) → IsLive (record r { pending_reads = [] })
cleared-IsLive r = record { live = λ key promise h. absurd (ground (arith, h)); distinct = tt }

read_api-IsLive : (r : Reads) (key : String) → IsLive r → IsLive (read_api r key).0
unfolding read_api
read_api-IsLive r key h = elim (Option-cases (get r.pending_reads key)) [
  | inr (p, q) ↦ rw (q, read_api) h
  | inl q ↦
      rw (q, read_api)
        (record {
          live = λ k p g. ground (
            arith,
            g,
            h.live k p,
            get-set r.pending_reads key r.next_promise k,
            get-set r.finals r.next_promise key p,
            string_eq.beq_iff key k,
            nat_eq.beq_iff r.next_promise p,
          );
          distinct = Distinct-keys-set r.pending_reads key r.next_promise h.distinct;
        })
]

-- A read that settles under its key: what stays pending is unsettled still.
module _ (r : Reads) (promise : ℕ) (key : String) (h : IsLive r)
    (q : get r.finals promise ≡ some key) where
  dropped-IsLive :
      IsLive
        (record r { finals = delete r.finals promise; pending_reads = delete r.pending_reads key })
  dropped-IsLive = record {
    live = λ k p g. ground (
      arith,
      g,
      q,
      h.live k p,
      get-delete_other r.pending_reads key k,
      get-delete_self r.pending_reads key h.distinct,
      get-delete_other r.finals promise p,
      string_eq.beq_iff key k,
      nat_eq.beq_iff promise p,
    );
    distinct = Distinct-keys-delete r.pending_reads key h.distinct;
  }

  kept-IsLive :
      (get r.pending_reads key ≡ some promise → true ≡ false)
      → IsLive (record r { finals = delete r.finals promise })
  kept-IsLive other = record {
    live = λ k p g. ground (
      arith,
      g,
      q,
      other,
      h.live k p,
      get-delete_other r.finals promise p,
      string_eq.beq_iff key k,
      nat_eq.beq_iff promise p,
    );
    distinct = h.distinct;
  }

read_settled-IsLive : (r : Reads) (promise : ℕ) → IsLive r → IsLive (read_settled r promise)
unfolding read_settled
read_settled-IsLive r promise h = elim (Option-cases (get r.finals promise)) [
  | inl q ↦ rw (read_settled, q) h
  | inr (key, q) ↦ elim (Option-cases (get r.pending_reads key)) [
    | inl p ↦ rw (read_settled, q, p) (kept-IsLive r promise key h q (λ g. ground (arith, p, g)))
    | inr (c, p) ↦ elim (Bool-cases (c == promise)) [
      | inl e ↦ rw (read_settled, q, p, e) (dropped-IsLive r promise key h q)
      | inr e ↦
          rw (read_settled, q, p, e)
            (kept-IsLive r promise key h q (λ g. ground (arith, p, g, e, nat_eq.beq_iff c promise)))
    ]
  ]
]

step-IsLive : (r : Reads) (e : Event) → IsLive r → IsLive (step r e)
unfolding step write_api write_settled
step-IsLive r (reads key) h = read_api-IsLive r key h
step-IsLive r (settles promise) h = read_settled-IsLive r promise h
step-IsLive r writes h = cleared-IsLive r
step-IsLive r (written path) h = elim (Bool-cases (path == "execute")) [
  | inl q ↦ rw (step, q) (cleared-IsLive r)
  | inr q ↦ rw (step, q) h
]

pub run : Reads → List Event → Reads
run r [] = r
run r (e ∷ es) = run (step r e) es

run-IsLive : (r : Reads) (es : List Event) → IsLive r → IsLive (run r es)
unfolding run
run-IsLive r [] h = h
run-IsLive r (e ∷ es) h = run-IsLive (step r e) es (step-IsLive r e h)

read_api-shares :
    (r : Reads) (key : String)
    → IsLive r
    → let (r', promise, made) = read_api r key in
      (get r'.finals promise ≡ some key) × (read_api r' key ≡ (r', promise, false))
unfolding read_api
read_api-shares r key h = elim (Option-cases (get r.pending_reads key)) [
  | inr (p, q) ↦ ground (arith, q, h.live key p)
  | inl q ↦ ground (
    arith,
    q,
    get-set_self r.pending_reads key r.next_promise,
    get-set_self r.finals r.next_promise key,
  )
]

-- After any reads, writes and answers in any order: a read is answered by an unsettled request for
-- the same key, its own or one that is under way, and the same read again, before anything else
-- happens, makes no request and gets the same promise.
pub run-shares :
    (es : List Event) (key : String)
    → let (r, promise, made) = read_api (run no_reads es) key in
      (get r.finals promise ≡ some key) × (read_api r key ≡ (r, promise, false))
run-shares es key =
    read_api-shares (run no_reads es) key (run-IsLive no_reads es (cleared-IsLive no_reads))
