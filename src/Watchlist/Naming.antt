-- ===== src/Watchlist/Naming.antt =====
-- apps/web/src/operator/watchlistModel.ts: what `normalizeSymbol` accepts and gives.
use Prim.Native.Char.{Char, code}
use Prim.Native.String.{String, [] as empty, ◌∷◌ as ◌∷s◌}
use montlok_terminal.Prelude.{
  ℕ, ◌≡◌, refl, ◌⊎◌, Bool, true, false, ◌&&◌, ◌||◌, List, [], ◌∷◌, some, if◌then◌else◌, leb, ◌==◌,
  nat_eq, string_eq, length, all, arith, Bool-cases, inl, inr,
}
use montlok_terminal.Watchlist.Symbols.{
  trim_start, trim_end, upper, replace_slash, is_alnum, matches_from, is_instrument,
  normalize_symbol, is_space, is_lower, is_folded,
}

-- A character of an instrument's name is no white space, no slash, and its own upper case.
instrument_char :
    (c : ℕ)
    → ((c == 45) || is_alnum c) ≡ true
    → (is_space c ≡ false) × (is_lower c ≡ false) × (is_folded c ≡ false) × ((c == 47) ≡ false)
instrument_char c h = ground arith

module _ (part dashed : Bool) (c : Char) (s : String)
    (h : matches_from part dashed (c ∷s s) ≡ true) where
  matches_from-head : ((code c == 45) || is_alnum (code c)) ≡ true
  unfolding matches_from
  matches_from-head = ground (arith, h)

  -- what follows is read from one of two states
  matches_from-tail : (matches_from false true s ≡ true) ⊎ (matches_from true dashed s ≡ true)
  unfolding matches_from
  matches_from-tail = elim (Bool-cases (code c == 45)) [
    | inl q ↦ inl (ground (arith, h, q))
    | inr q ↦ inr (ground (arith, h, q))
  ]

trim_start-matches :
    (part dashed : Bool) (s : String) → matches_from part dashed s ≡ true → trim_start s ≡ s
unfolding trim_start
trim_start-matches part dashed empty h = refl
trim_start-matches part dashed (c ∷s s) h =
    ground (arith, instrument_char (code c) (matches_from-head part dashed c s h))

-- A property of a text and its tail, over the texts that the automaton accepts from some state.
module _ (P : String → Type 0) (base : P empty)
    (next : (c : Char) (s : String)
      → (is_space (code c) ≡ false)
        × (is_lower (code c) ≡ false)
        × (is_folded (code c) ≡ false)
        × ((code c == 47) ≡ false)
      → P s
      → P (c ∷s s)) where
  matches_from_induction :
      (s : String) (part dashed : Bool) → matches_from part dashed s ≡ true → P s
  matches_from_induction empty part dashed h = base
  matches_from_induction (c ∷s s) part dashed h =
      next c s (instrument_char (code c) (matches_from-head part dashed c s h))
        (elim (matches_from-tail part dashed c s h) [
          | inl g ↦ matches_from_induction s false true g
          | inr g ↦ matches_from_induction s true dashed g
        ])

trim_end-matches :
    (s : String) (part dashed : Bool) → matches_from part dashed s ≡ true → trim_end s ≡ s
unfolding trim_end
trim_end-matches =
    matches_from_induction (λ s. trim_end s ≡ s) refl (λ c s good same. rw (good.0, same))

upper-matches : (s : String) (part dashed : Bool) → matches_from part dashed s ≡ true → upper s ≡ s
unfolding upper
upper-matches =
    matches_from_induction (λ s. upper s ≡ s) refl (λ c s good same. rw (good.1, good.2, same))

replace_slash-matches :
    (s : String) (part dashed : Bool) → matches_from part dashed s ≡ true → replace_slash s ≡ s
unfolding replace_slash
replace_slash-matches =
    matches_from_induction (λ s. replace_slash s ≡ s) refl (λ c s good same. rw (good.3, same))

-- A name of an instrument is its own normal form.
pub normalize_symbol-instrument :
    (s : String) → is_instrument s ≡ true → normalize_symbol s ≡ some s
unfolding normalize_symbol
normalize_symbol-instrument s h = rw (
  trim_start-matches false false s h,
  trim_end-matches s false false h,
  upper-matches s false false h,
  replace_slash-matches s false false h,
  h,
)

normalize_symbol_gives :
    (value symbol : String) → normalize_symbol value ≡ some symbol → is_instrument symbol ≡ true
unfolding normalize_symbol
normalize_symbol_gives value symbol h =
    let t = replace_slash (upper (trim_end (trim_start value))) in
    elim (Bool-cases (is_instrument t)) [
      | inl q ↦ ground (arith, q, h)
      | inr q ↦ absurd (ground (arith, q, h))
    ]

-- Whatever text is given, what is read from it is the name of an instrument, and reading it again
-- gives the same name.
pub normalize_symbol-again :
    (value symbol : String)
    → normalize_symbol value ≡ some symbol
    → (is_instrument symbol ≡ true) × (normalize_symbol symbol ≡ some symbol)
normalize_symbol-again value symbol h =
    let good = normalize_symbol_gives value symbol h in
    (good, normalize_symbol-instrument symbol good)

-- The parts of a text between its dashes.
abbrev push : Char → List String → List String
push c [] = (c ∷s empty) ∷ []
push c (x ∷ xs) = (c ∷s x) ∷ xs

unfoldable pub parts_of : String → List String
parts_of empty = empty ∷ []
parts_of (c ∷s s) = let rest = parts_of s in if code c == 45 then empty ∷ rest else push c rest

abbrev is_word : String → Bool
is_word empty = true
is_word (c ∷s s) = is_alnum (code c) && is_word s

abbrev is_filled : String → Bool
is_filled empty = false
is_filled (c ∷s s) = true

abbrev pub is_part : String → Bool
is_part x = is_filled x && is_word x

-- What the automaton accepts from a state, given the parts of what is left.
abbrev accepts : Bool → Bool → List String → Bool
accepts part dashed [] = false
accepts part dashed (x ∷ xs) =
    (part || is_filled x) && is_word x && all is_part xs && (dashed || leb 1 (length xs))

parts_of_cons : (s : String) → (x : String) × (xs : List String) × (parts_of s ≡ x ∷ xs)
unfolding parts_of
parts_of_cons empty = (empty, [], refl)
parts_of_cons (c ∷s s) =
    let (x, xs, q) = parts_of_cons s in
    elim (Bool-cases (code c == 45)) [
      | inl p ↦ (empty, x ∷ xs, rw (p, q))
      | inr p ↦ (c ∷s x, xs, rw (p, q))
    ]

matches_from-parts :
    (part dashed : Bool) (s : String)
    → matches_from part dashed s ≡ accepts part dashed (parts_of s)
unfolding matches_from parts_of
matches_from-parts part dashed empty = ground arith
matches_from-parts part dashed (c ∷s s) =
    let (x, xs, q) = parts_of_cons s in
    let after_dash = rw q at (matches_from-parts false true s) in
    let after_letter = rw q at (matches_from-parts true dashed s) in
    rw q (ground (arith, after_dash, after_letter))

-- The test of a name reads it as its parts between dashes: it accepts exactly two or more parts, each
-- of them one or more capital letters and digits.
pub is_instrument-parts :
    (s : String) → is_instrument s ≡ (leb 2 (length (parts_of s)) && all is_part (parts_of s))
is_instrument-parts s =
    let (x, xs, q) = parts_of_cons s in
    let same = rw q at (matches_from-parts false false s) in rw q (ground (arith, same))
