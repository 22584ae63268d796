-- ===== src/Workspace/Removal.antt =====
-- apps/web/src/operator/quantWorkspaceModel.ts: the item that `findIndex` and `splice` take out.
use montlok_terminal.Prelude.{
  ℕ, zero, suc, String, ◌≡◌, refl, inl, inr, Bool, true, false, List, [], ◌∷◌, ◌++◌, none, some,
  arith, if◌then◌else◌, ◌==◌, string_eq, length, includes, Distinct, All, Bool-cases,
}
use montlok_terminal.Workspace.Tabs.{find_index, remove_at}

-- The item that `splice` takes out: the first that is not pinned.
abbrev pub remove_first : (String → Bool) → List String → List String
remove_first p [] = []
remove_first p (x ∷ xs) = if p x then xs else x ∷ remove_first p xs

pub remove_at-find_index :
    (p : String → Bool) (xs : List String) (i : ℕ)
    → find_index p xs ≡ some i
    → remove_at i xs ≡ remove_first p xs
unfolding find_index
remove_at-find_index p [] i h = absurd (ground arith)
remove_at-find_index p (x ∷ xs) zero h = ground arith
remove_at-find_index p (x ∷ xs) (suc i) h = ground (arith, remove_at-find_index p xs i)

pub find_index-none :
    (p : String → Bool) (xs : List String) → find_index p xs ≡ none → All (λ x. p x ≡ false) xs
unfolding find_index
find_index-none p [] h = tt
find_index-none p (x ∷ xs) h = (ground arith, find_index-none p xs (ground arith))

pub length-remove_first :
    (p : String → Bool) (xs : List String) (i : ℕ)
    → find_index p xs ≡ some i
    → suc (length (remove_first p xs)) ≡ length xs
unfolding find_index
length-remove_first p [] i h = absurd (ground arith)
length-remove_first p (x ∷ xs) zero h = ground arith
length-remove_first p (x ∷ xs) (suc i) h = ground (arith, length-remove_first p xs i)

pub remove_first-append :
    (p : String → Bool) (xs ys : List String) (i : ℕ)
    → find_index p xs ≡ some i
    → remove_first p (xs ++ ys) ≡ remove_first p xs ++ ys
unfolding find_index
remove_first-append p [] ys i h = absurd (ground arith)
remove_first-append p (x ∷ xs) ys zero h = ground arith
remove_first-append p (x ∷ xs) ys (suc i) h = ground (arith, remove_first-append p xs ys i)

pub includes-remove_first :
    (p : String → Bool) (xs : List String) (a : String)
    → p a ≡ false
    → includes (remove_first p xs) a ≡ includes xs a
includes-remove_first p [] a h = refl
includes-remove_first p (x ∷ xs) a h =
    ground (arith, includes-remove_first p xs a h, string_eq.beq_iff x a)

pub includes-remove_first-le :
    (p : String → Bool) (xs : List String) (a : String)
    → includes xs a ≡ false
    → includes (remove_first p xs) a ≡ false
includes-remove_first-le p [] a h = refl
includes-remove_first-le p (x ∷ xs) a h = ground (arith, includes-remove_first-le p xs a)

pub Distinct-remove_first :
    (p : String → Bool) (xs : List String) → Distinct xs → Distinct (remove_first p xs)
Distinct-remove_first p [] d = tt
Distinct-remove_first p (x ∷ xs) d = elim (Bool-cases (p x)) [
  | inl q ↦ rw q d.1
  | inr q ↦ rw q (includes-remove_first-le p xs x d.0, Distinct-remove_first p xs d.1)
]

pub All-remove_first :
    (P : String → Type 0) (p : String → Bool) (xs : List String)
    → All P xs
    → All P (remove_first p xs)
All-remove_first P p [] h = tt
All-remove_first P p (x ∷ xs) h = elim (Bool-cases (p x)) [
  | inl q ↦ rw q h.1
  | inr q ↦ rw q (h.0, All-remove_first P p xs h.1)
]

pub length-remove_self :
    (ys : List String) (x : String)
    → includes ys x ≡ true
    → suc (length (remove_first (λ y. y == x) ys)) ≡ length ys
length-remove_self [] x h = absurd (ground arith)
length-remove_self (y ∷ ys) x h = ground (arith, length-remove_self ys x)

pub All-includes-remove :
    (xs ys : List String) (x : String)
    → includes xs x ≡ false
    → All (λ a. includes ys a ≡ true) xs
    → All (λ a. includes (remove_first (λ y. y == x) ys) a ≡ true) xs
All-includes-remove [] ys x n h = tt
All-includes-remove (a ∷ xs) ys x n h = (
  ground (arith, includes-remove_first (λ y. y == x) ys a),
  All-includes-remove xs ys x (ground arith) h.1,
)
