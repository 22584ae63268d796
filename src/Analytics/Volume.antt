-- ===== src/Analytics/Volume.antt =====
-- apps/web/src/pages/ExecutionAnalytics/executionModel.ts: the chart of the volume has one point for
-- each five minutes.
use montlok_terminal.Prelude.{
  ℕ, ◌*◌, ◌/◌, String, ◌≡◌, refl, inl, inr, Bool, false, ◌||◌, List, [], ◌∷◌, Option, none, some,
  arith, ◌==◌, string_eq, nat_eq, Bool-cases, Distinct, includes, ltb, leb, All,
}
use montlok_terminal.Prelude.Numbers.{Numbers}
use montlok_terminal.Prelude.Sorting.{sort_by, insert_by, Ascends, Follows, sort_by-All}
use montlok_terminal.JsMap.{get, set, keys, Distinct-keys-set}
use montlok_terminal.Json.{Json}
use montlok_terminal.Analytics.Fields.{Row, text_or, finite, execution_time, fill_notional}
use montlok_terminal.Analytics.Execution.{
  ExecutionDetail, Tally, no_tally, bucket_of, tally_amount, tally_fee, tally_fill, tally_fills,
  listed, execution_analytics,
}

module _ {V : Type 0} where
  abbrev earlier : ℕ × V → ℕ × V → Bool
  earlier a b = ltb a.0 b.0

  -- Nothing stands after a point of the same time or a later one.
  abbrev pub not_later : ℕ × V → ℕ × V → Bool
  not_later a b = leb a.0 b.0

  includes-keys-insert_by :
      (x : ℕ × V) (ys : List (ℕ × V)) (k : ℕ)
      → includes (keys (insert_by earlier x ys)) k ≡ (x.0 == k || includes (keys ys) k)
  unfolding insert_by
  includes-keys-insert_by x [] k = refl
  includes-keys-insert_by x (y ∷ ys) k = ground (arith, includes-keys-insert_by x ys k)

  includes-keys-sort_by :
      (xs : List (ℕ × V)) (k : ℕ) → includes (keys (sort_by earlier xs)) k ≡ includes (keys xs) k
  unfolding sort_by
  includes-keys-sort_by [] k = refl
  includes-keys-sort_by (x ∷ xs) k =
      ground (arith, includes-keys-insert_by x (sort_by earlier xs) k, includes-keys-sort_by xs k)

  insert_by-Follows :
      (x z : ℕ × V) (ys : List (ℕ × V))
      → not_later x z ≡ false
      → Follows not_later z ys
      → Follows not_later z (insert_by earlier x ys)
  unfolding insert_by
  insert_by-Follows x z [] h f = h
  insert_by-Follows x z (y ∷ ys) h f = elim (Bool-cases (earlier y x)) [
    | inl q ↦ rw q f
    | inr q ↦ rw q h
  ]

  insert_by-Ascends :
      (x : ℕ × V) (ys : List (ℕ × V))
      → includes (keys ys) x.0 ≡ false
      → Ascends not_later ys
      → Ascends not_later (insert_by earlier x ys)
  unfolding insert_by
  insert_by-Ascends x [] h a = (tt, tt)
  insert_by-Ascends x (y ∷ ys) h a = elim (Bool-cases (earlier y x)) [
    | inl q ↦ rw q (
      insert_by-Follows x y ys (ground (arith, q)) a.0,
      insert_by-Ascends x ys (ground (arith, h)) a.1,
    )
    | inr q ↦ rw q (ground (arith, q, h), a)
  ]

  sort_by-Ascends :
      (xs : List (ℕ × V)) → Distinct (keys xs) → Ascends not_later (sort_by earlier xs)
  unfolding sort_by
  sort_by-Ascends [] d = tt
  sort_by-Ascends (x ∷ xs) d =
      insert_by-Ascends x (sort_by earlier xs) (ground (arith, includes-keys-sort_by xs x.0, d.0))
        (sort_by-Ascends xs d.1)

-- A time that begins five minutes.
abbrev pub IsBucket : ℕ → Type 0
IsBucket k = k / 300 * 300 ≡ k

module _ {N : Type 0} ⦃n : Numbers N⦄ where
  -- One entry for each bucket.
  abbrev HasBuckets : Tally N → Type 0
  HasBuckets t = Distinct (keys t.buckets) × All (λ x. IsBucket x.0) t.buckets

  set-AreBuckets :
      (m : List (ℕ × N)) (k : ℕ) (v : N)
      → IsBucket k
      → All (λ x. IsBucket x.0) m
      → All (λ x. IsBucket x.0) (set m k v)
  unfolding set
  set-AreBuckets [] k v h a = (h, tt)
  set-AreBuckets ((j, w) ∷ m) k v h a = elim (Bool-cases (j == k)) [
    | inl q ↦ rw q a
    | inr q ↦ rw q (a.0, set-AreBuckets m k v h a.1)
  ]

  tally_amount-HasBuckets :
      (t : Tally N) (amount : Option N) (at : Option ℕ)
      → HasBuckets t
      → HasBuckets (tally_amount t amount at)
  unfolding tally_amount
  tally_amount-HasBuckets t none at h = h
  tally_amount-HasBuckets t (some amount) none h = h
  tally_amount-HasBuckets t (some amount) (some at) h = (
    Distinct-keys-set t.buckets (bucket_of at) _ h.0,
    set-AreBuckets t.buckets (bucket_of at) _ (omega arith) h.1,
  )

  tally_fee-buckets :
      (t : Tally N) (fee : Option N) (currency : Option Json) (instrument : String)
      → (tally_fee t fee currency instrument).buckets ≡ t.buckets
  unfolding tally_fee
  tally_fee-buckets t none currency instrument = refl
  tally_fee-buckets t (some fee) currency instrument = ground arith

  tally_fills-HasBuckets :
      (t : Tally N) (fills : List Row) → HasBuckets t → HasBuckets (tally_fills t fills)
  unfolding tally_fills tally_fill
  tally_fills-HasBuckets t [] h = h
  tally_fills-HasBuckets t (x ∷ xs) h = tally_fills-HasBuckets (tally_fill t x) xs (
      rw
        (tally_fee-buckets (tally_amount t (fill_notional x) (execution_time N (get x "time")))
          (finite (get x "fee")) (get x "feeCurrency") (text_or (get x "instrument") "品种未记录"))
        (tally_amount-HasBuckets t (fill_notional x) (execution_time N (get x "time")) h))

module _ (N : Type 0) ⦃n : Numbers N⦄ where
  -- The points of the volume stand in the order of time, no two at the same time, each where five
  -- minutes begin, as the chart requires.
  pub execution_analytics-volume :
      (detail : ExecutionDetail)
      → let points = (execution_analytics {N = N} detail).volume in
        Ascends not_later points × All (λ x. IsBucket x.0) points
  unfolding execution_analytics
  execution_analytics-volume detail =
      let fills = listed detail "fills" detail.fills in
      let h = tally_fills-HasBuckets (no_tally {N = N}) fills (tt, tt) in
      (
        sort_by-Ascends (tally_fills (no_tally {N = N}) fills).buckets h.0,
        sort_by-All earlier (λ x. IsBucket x.0) (tally_fills (no_tally {N = N}) fills).buckets h.1,
      )
