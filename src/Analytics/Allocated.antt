-- ===== src/Analytics/Allocated.antt =====
-- apps/web/src/pages/Account/allocationModel.ts: the value of each currency, and what is left out.
use montlok_terminal.Prelude.{
  ℕ, ◌+◌, ◌≡◌, refl, sym, ap, ◌∙◌, Bool, true, false, not, ◌&&◌, List, [], ◌∷◌, Option, none, some,
  arith, String, ◌==◌, string_eq, if◌then◌else◌, inl, inr, Bool-cases, map, length, filter, All,
  All-map, Distinct, includes, is_some,
}
use montlok_terminal.Prelude.Numbers.{Numbers, or_zero}
use montlok_terminal.Prelude.Sorting.{Ascends, sort_by, insert_by, sort_by-Ascends, sort_by-All}
use montlok_terminal.JsMap.{get, keys, get-set, has-includes, Distinct-keys-set}
use montlok_terminal.Analytics.Fields.{Row}
use montlok_terminal.Analytics.Allocation.{
  Allocation, Balances, equity, currency_of, total, slice_of, larger, is_counted, add_balance,
  add_balances, no_balances, asset_allocation,
}

module _ (N : Type 0) ⦃n : Numbers N⦄ where
  -- A row with a currency and a finite value, which is positive.
  abbrev pub is_positive : Row → Bool
  is_positive row = is_counted N row && n.lt (n.of_nat 0) (equity row)

  -- The value of a currency as it is meant: its positive rows, added to 0 in their order.
  abbrev pub value_from : Option N → String → List Row → Option N
  value_from value currency [] = value
  value_from value currency (row ∷ rows) =
      value_from
        (if is_positive row && currency_of row == currency
          then some (n.add (or_zero value) (equity row))
          else value)
        currency rows

  abbrev pub add_negative : N → Row → N
  add_negative sum row =
      if is_counted N row && n.lt (equity row) (n.of_nat 0) then n.add sum (equity row) else sum

  abbrev pub sum_negative : N → List Row → N
  sum_negative sum [] = sum
  sum_negative sum (row ∷ rows) = sum_negative (add_negative sum row) rows

  abbrev pub uncounted : List Row → ℕ
  uncounted rows = length (filter (λ row. not (is_counted N row)) rows)

  negative-add_balance :
      (b : Balances N) (row : Row) → (add_balance N b row).negative ≡ add_negative b.negative row
  unfolding add_balance
  negative-add_balance b row = elim (Bool-cases (is_counted N row)) [
    | inl q ↦ rw q refl
    | inr q ↦ rw q refl
  ]

  negative-add_balances :
      (b : Balances N) (rows : List Row)
      → (add_balances N b rows).negative ≡ sum_negative b.negative rows
  negative-add_balances b [] = refl
  negative-add_balances b (row ∷ rows) =
      negative-add_balances (add_balance N b row) rows
      ∙ ap (λ s. sum_negative s rows) (negative-add_balance b row)

  missing-add_balances :
      (b : Balances N) (rows : List Row)
      → (add_balances N b rows).missing ≡ b.missing + uncounted rows
  unfolding add_balance
  missing-add_balances b [] = omega arith
  missing-add_balances b (row ∷ rows) =
      let rest = missing-add_balances (add_balance N b row) rows in
      elim (Bool-cases (is_counted N row)) [
        | inl q ↦ ground (arith, q, rest)
        | inr q ↦ ground (arith, q, rest)
      ]

  -- One row adds to the value of its own currency alone.
  get-add_balance :
      (b : Balances N) (row : Row) (currency : String)
      → get (add_balance N b row).values currency ≡ (
          if is_positive row && currency_of row == currency
          then some (n.add (or_zero (get b.values currency)) (equity row))
          else get b.values currency)
  unfolding add_balance
  get-add_balance b row currency =
      let own =
        get-set b.values (currency_of row)
          (n.add (or_zero (get b.values (currency_of row))) (equity row)) currency in
      elim (Bool-cases (is_counted N row)) [
        | inr q ↦ rw q refl
        | inl q ↦ elim (Bool-cases (n.lt (n.of_nat 0) (equity row))) [
          | inr p ↦ rw (q, p) refl
          | inl p ↦ elim (Bool-cases (currency_of row == currency)) [
            | inr c ↦ rw (q, p, own, c) refl
            | inl c ↦
                rw (q, p, own, c)
                  (ap (λ k. some (n.add (or_zero (get b.values k)) (equity row)))
                    ((string_eq.beq_iff (currency_of row) currency).0 c))
          ]
        ]
      ]

  get-add_balances :
      (b : Balances N) (rows : List Row) (currency : String)
      → get (add_balances N b rows).values currency
        ≡ value_from (get b.values currency) currency rows
  get-add_balances b [] currency = refl
  get-add_balances b (row ∷ rows) currency =
      get-add_balances (add_balance N b row) rows currency
      ∙ ap (λ v. value_from v currency rows) (get-add_balance b row currency)

  Distinct-add_balances :
      (b : Balances N) (rows : List Row)
      → Distinct (keys b.values)
      → Distinct (keys (add_balances N b rows).values)
  unfolding add_balance
  Distinct-add_balances b [] d = d
  Distinct-add_balances b (row ∷ rows) d =
      Distinct-add_balances (add_balance N b row) rows (elim (Bool-cases (is_counted N row)) [
        | inr q ↦ rw q d
        | inl q ↦ elim (Bool-cases (n.lt (n.of_nat 0) (equity row))) [
          | inr p ↦ rw (q, p) d
          | inl p ↦ rw (q, p) (Distinct-keys-set b.values (currency_of row) _ d)
        ]
      ])

  -- What each slice of the map shows.
  slices-values :
      (positive : N) (m whole : List (String × N))
      → Distinct (keys m)
      → ((k : String) → includes (keys m) k ≡ true → get whole k ≡ get m k)
      → All
          (λ a. (get whole a.currency ≡ some a.value) × (a.share ≡ n.div a.value positive))
          (map (slice_of positive) m)
  slices-values positive [] whole d same = tt
  slices-values positive ((k, v) ∷ m) whole d same =
      let head : get whole k ≡ some v = ground (arith, same k, string_eq.beq_iff k k) in
      ((head, refl), slices-values positive m whole d.1 (later whole k v m d same))
    where
      later :
          (whole : List (String × N)) (k : String) (v : N) (m : List (String × N))
          → Distinct (k ∷ keys m)
          → ((j : String) → includes (k ∷ keys m) j ≡ true → get whole j ≡ get ((k, v) ∷ m) j)
          → (j : String) → includes (keys m) j ≡ true
          → get whole j ≡ get m j
      later whole k v m d same j h = ground (arith, d.0, h, same j, string_eq.beq_iff k j)

  module _ (currency : String) where
    abbrev pub is_of : Allocation N → Bool
    is_of a = a.currency == currency

    abbrev pub slice_count : List (Allocation N) → ℕ
    slice_count slices = length (filter is_of slices)

    slice_count-insert_by :
        (a : Allocation N) (slices : List (Allocation N))
        → slice_count (insert_by larger a slices) ≡ slice_count (a ∷ slices)
    unfolding insert_by
    slice_count-insert_by a [] = refl
    slice_count-insert_by a (c ∷ slices) = ground (arith, slice_count-insert_by a slices)

    slice_count-sort_by :
        (slices : List (Allocation N)) → slice_count (sort_by larger slices) ≡ slice_count slices
    unfolding sort_by
    slice_count-sort_by [] = refl
    slice_count-sort_by (a ∷ slices) =
        ground (arith, slice_count-insert_by a (sort_by larger slices), slice_count-sort_by slices)

    slice_count-slices :
        (positive : N) (m : List (String × N))
        → Distinct (keys m)
        → slice_count (map (slice_of positive) m) ≡ (if is_some (get m currency) then 1 else 0)
    slice_count-slices positive [] d = refl
    slice_count-slices positive ((k, v) ∷ m) d =
        let rest = slice_count-slices positive m d.1 in
        elim (Bool-cases (k == currency)) [
          | inl q ↦
              let absent : is_some (get m currency) ≡ false =
                ground (arith, d.0, q, has-includes m currency, string_eq.beq_iff k currency) in
              ground (arith, q, rest, absent)
          | inr q ↦ ground (arith, q, rest)
        ]

  pub asset_allocation-values :
      ((a b : N) → n.lt a b ≡ true → n.lt b a ≡ false)
      → (rows : List Row)
      → let r = asset_allocation N rows in
        All
          (λ a.
            (value_from none a.currency rows ≡ some a.value) × (a.share ≡ n.div a.value r.positive))
          r.slices
        × ((currency : String)
            → slice_count currency r.slices
              ≡ (if is_some (value_from none currency rows) then 1 else 0))
        × Ascends larger r.slices
        × (r.negative ≡ sum_negative (n.of_nat 0) rows)
        × (r.missing ≡ uncounted rows)
  unfolding asset_allocation
  asset_allocation-values one_way rows =
      let b = add_balances N (no_balances N) rows in
      let positive = total (n.of_nat 0) b.values in
      let slices = map (slice_of positive) b.values in
      let meant = get-add_balances (no_balances N) rows in
      (
        sort_by-All larger _ slices (
            All-map (λ a h. (sym (meant a.currency) ∙ h.0, h.1)) slices
              (slices-values positive b.values b.values
                (Distinct-add_balances (no_balances N) rows tt) (λ k h. refl))),
        λ currency.
            slice_count-sort_by currency slices
            ∙ slice_count-slices currency positive b.values
                (Distinct-add_balances (no_balances N) rows tt)
            ∙ ap (λ v. if is_some v then 1 else 0) (meant currency),
        sort_by-Ascends larger (λ x y. one_way y.value x.value) slices,
        negative-add_balances (no_balances N) rows,
        omega (arith, missing-add_balances (no_balances N) rows),
      )
