-- ===== src/Prelude/Naturals.antt =====
-- Concrete numbers for the tests: the natural numbers, and NaN, which is `none`.
use Prim.Native.Char.{code}
use Prim.Native.String.{String, [] as empty, ◌∷◌ as ◌∷s◌}
use montlok_terminal.Prelude.{
  ℕ, ◌+◌, ◌-◌, ◌*◌, ◌/◌, Bool, true, false, ◌&&◌, Option, none, some, if◌then◌else◌, ◌==◌, nat_eq,
  is_some, leb, ltb, get_or,
}
use montlok_terminal.Prelude.Numbers.{Numbers}
use montlok_terminal.Json.{Json}

abbrev digits : String → ℕ → Option ℕ
digits empty n = some n
digits (c ∷s s) n =
    let rest = digits s (n * 10 + (code c - 48)) in
    if leb 48 (code c) && leb (code c) 57 then rest else none

abbrev number_of : Option Json → Option ℕ
number_of none = none
number_of (some Json.null) = some 0
number_of (some (Json.number text)) = digits text 0
number_of (some (Json.string text)) = digits text 0
number_of (some (Json.bool b)) = some (if b then 1 else 0)
number_of (some _) = none

abbrev both : (ℕ → ℕ → ℕ) → Option ℕ → Option ℕ → Option ℕ
both f (some a) (some b) = some (f a b)
both f _ _ = none

abbrev test : (ℕ → ℕ → Bool) → Option ℕ → Option ℕ → Bool
test f (some a) (some b) = f a b
test f _ _ = false

instance abbrev pub naturals : Numbers (Option ℕ)
naturals = record {
  number = number_of;
  parse_date = λ text. none;
  of_nat = some;
  add = both (λ a b. a + b);
  sub = both (λ a b. a - b);
  mul = both (λ a b. a * b);
  div = both (λ a b. if b == 0 then 0 else a / b);
  abs = λ a. a;
  lt = test ltb;
  same = test (λ a b. a == b);
  is_finite = is_some;
  is_integer = is_some;
  to_nat = λ a. get_or a 0;
}

-- Whole numbers as exact arithmetic.
abbrev pub exact : Numbers ℕ
exact = record {
  number = λ j. get_or (number_of j) 0;
  parse_date = λ text. 0;
  of_nat = λ k. k;
  add = λ a b. a + b;
  sub = λ a b. a - b;
  mul = λ a b. a * b;
  div = λ a b. a / b;
  abs = λ a. a;
  lt = ltb;
  same = λ a b. a == b;
  is_finite = λ a. true;
  is_integer = λ a. true;
  to_nat = λ a. a;
}
