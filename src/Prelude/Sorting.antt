-- ===== src/Prelude/Sorting.antt =====
-- `sort` of an array, which is stable. `before a b` says that the comparison of a with b is negative.
-- Where the comparison is not an order (a time that is NaN), the engine chooses the result.
use Prim.Native.Nat.{ℕ, suc, ◌+◌}
use mathlib.Core.Path.{◌≡◌, refl}
use mathlib.Core.Logic.{inl, inr}
use mathlib.Core.Bool.{Bool, true, false}
use mathlib.Core.List.{List, [], ◌∷◌}
use native.Mathlib.Omega.{arith}
use montlok_terminal.Prelude.Tests.{if◌then◌else◌, Bool-cases}
use montlok_terminal.Prelude.Lists.{length, All}

-- A total over the elements, which does not depend on their order.
abbrev pub sum_of {ℓ} : {A : Type ℓ} → (A → ℕ) → List A → ℕ
sum_of f [] = 0
sum_of f (x ∷ xs) = f x + sum_of f xs

module _ {ℓ} {A : Type ℓ} (before : A → A → Bool) where
  unfoldable pub insert_by : A → List A → List A
  insert_by x [] = x ∷ []
  insert_by x (y ∷ ys) = if before y x then y ∷ insert_by x ys else x ∷ y ∷ ys

  unfoldable pub sort_by : List A → List A
  sort_by [] = []
  sort_by (x ∷ xs) = insert_by x (sort_by xs)

  abbrev pub Follows : A → List A → Type 0
  Follows x [] = Unit
  Follows x (y ∷ ys) = before y x ≡ false

  -- No element belongs before the one in front of it.
  abbrev pub Ascends : List A → Type 0
  Ascends [] = Unit
  Ascends (x ∷ xs) = Follows x xs × Ascends xs

  -- `before` is never true both ways, as no number is both less and greater.
  module _ (one_way : (a b : A) → before a b ≡ true → before b a ≡ false) where
    insert_by-Follows :
        (x z : A) (ys : List A) → before x z ≡ false → Follows z ys → Follows z (insert_by x ys)
    unfolding insert_by
    insert_by-Follows x z [] h f = h
    insert_by-Follows x z (y ∷ ys) h f = elim (Bool-cases (before y x)) [
      | inl q ↦ rw q f
      | inr q ↦ rw q h
    ]

    insert_by-Ascends : (x : A) (ys : List A) → Ascends ys → Ascends (insert_by x ys)
    unfolding insert_by
    insert_by-Ascends x [] a = (tt, tt)
    insert_by-Ascends x (y ∷ ys) a = elim (Bool-cases (before y x)) [
      | inl q ↦ rw q (insert_by-Follows x y ys (one_way y x q) a.0, insert_by-Ascends x ys a.1)
      | inr q ↦ rw q (q, a)
    ]

    pub sort_by-Ascends : (xs : List A) → Ascends (sort_by xs)
    unfolding sort_by
    sort_by-Ascends [] = tt
    sort_by-Ascends (x ∷ xs) = insert_by-Ascends x (sort_by xs) (sort_by-Ascends xs)

  insert_by-length : (x : A) (ys : List A) → length (insert_by x ys) ≡ suc (length ys)
  unfolding insert_by
  insert_by-length x [] = refl
  insert_by-length x (y ∷ ys) = ground (arith, insert_by-length x ys)

  pub length-sort_by : (xs : List A) → length (sort_by xs) ≡ length xs
  unfolding sort_by
  length-sort_by [] = refl
  length-sort_by (x ∷ xs) = ground (arith, insert_by-length x (sort_by xs), length-sort_by xs)

  insert_by-sum : (f : A → ℕ) (x : A) (ys : List A) → sum_of f (insert_by x ys) ≡ f x + sum_of f ys
  unfolding insert_by
  insert_by-sum f x [] = refl
  insert_by-sum f x (y ∷ ys) = ground (arith, insert_by-sum f x ys)

  pub sum_of-sort_by : (f : A → ℕ) (xs : List A) → sum_of f (sort_by xs) ≡ sum_of f xs
  unfolding sort_by
  sum_of-sort_by f [] = refl
  sum_of-sort_by f (x ∷ xs) = ground (arith, insert_by-sum f x (sort_by xs), sum_of-sort_by f xs)

  insert_by-All {κ} :
      (P : A → Type κ) (x : A) (ys : List A) → P x → All P ys → All P (insert_by x ys)
  unfolding insert_by
  insert_by-All P x [] h a = (h, tt)
  insert_by-All P x (y ∷ ys) h a = elim (Bool-cases (before y x)) [
    | inl q ↦ rw q (a.0, insert_by-All P x ys h a.1)
    | inr q ↦ rw q (h, a)
  ]

  pub sort_by-All {κ} : (P : A → Type κ) (xs : List A) → All P xs → All P (sort_by xs)
  unfolding sort_by
  sort_by-All P [] a = tt
  sort_by-All P (x ∷ xs) a = insert_by-All P x (sort_by xs) a.0 (sort_by-All P xs a.1)
