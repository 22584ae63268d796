-- ===== src/Prelude/Decimal.antt =====
-- Numbers as the language writes them: decimal digits, without leading zeros.
use Prim.Native.Nat.{ℕ, zero, suc, ◌/◌, ◌%◌}
use Prim.Native.String.{String, ◌++◌ as ◌+s◌}
use mathlib.Core.List.{[], ◌∷◌}
use montlok_terminal.Prelude.Tests.{if◌then◌else◌, get_or, ◌==◌, nat_eq}
use montlok_terminal.Prelude.Lists.{get_elem?}

abbrev digit : ℕ → String
digit n = get_or (get_elem? ("0" ∷ "1" ∷ "2" ∷ "3" ∷ "4" ∷ "5" ∷ "6" ∷ "7" ∷ "8" ∷ "9" ∷ []) n) ""

-- The digits of `n` in front of those that are there; `fuel` above `n` is enough.
abbrev digits_onto : ℕ → ℕ → String → String
digits_onto zero n acc = acc
digits_onto (suc fuel) n acc =
    let now = digit (n % 10) +s acc in
    let rest = digits_onto fuel (n / 10) now in if n / 10 == 0 then now else rest

abbrev pub decimal : ℕ → String
decimal n = digits_onto (suc n) n ""
