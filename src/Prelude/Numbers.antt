-- ===== src/Prelude/Numbers.antt =====
-- The numbers of the language, which are floating point: an interface of the operations that the
-- source uses. Definitions take it as an instance argument; a theorem that needs a law of the
-- operations takes it as a hypothesis.
use Prim.Native.Nat.{ℕ}
use Prim.Native.String.{String}
use mathlib.Core.Bool.{Bool, ◌||◌}
use mathlib.Core.Option.{Option, none, some}
use montlok_terminal.Json.{Json}

pub record Numbers (N : Type 0) : Type 0 where
  -- `Number(value)`, where the value may be `undefined`
  pub number : Option Json → N
  -- `Date.parse(text)`
  pub parse_date : String → N
  pub of_nat : ℕ → N
  pub add : N → N → N
  pub sub : N → N → N
  pub mul : N → N → N
  pub div : N → N → N
  pub abs : N → N
  -- `<` and `===`, both false on NaN
  pub lt : N → N → Bool
  pub same : N → N → Bool
  pub is_finite : N → Bool
  -- `Number.isInteger`, and `Math.floor` of a finite number that is not negative
  pub is_integer : N → Bool
  pub to_nat : N → ℕ

module _ {N : Type 0} ⦃n : Numbers N⦄ where
  -- `a >= b`
  abbrev pub at_least : N → N → Bool
  at_least a b = n.lt b a || n.same a b

  -- `value || 0`, for a value that is not NaN
  abbrev pub or_zero : Option N → N
  or_zero none = n.of_nat 0
  or_zero (some x) = x
