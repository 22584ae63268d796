-- ===== src/Watchlist/Symbols.antt =====
-- apps/web/src/operator/watchlistModel.ts: the names of instruments, and `normalizeSymbol`.
use Prim.Native.Char.{code}
use Prim.Native.String.{String, [] as empty, ◌∷◌ as ◌∷s◌, ◌++◌ as ◌+s◌}
use montlok_terminal.Prelude.{
  ℕ, ◌-◌, Bool, true, false, ◌&&◌, ◌||◌, List, [], ◌∷◌, Option, none, some, if◌then◌else◌, leb,
  ◌==◌, nat_eq, string_eq, includes, get_elem?, get_or,
}

-- what `trim` removes: white space and the ends of lines
abbrev pub is_space : ℕ → Bool
is_space c =
    (leb 9 c && leb c 13)
    || (leb 8192 c && leb c 8202)
    || includes (32 ∷ 160 ∷ 5760 ∷ 8232 ∷ 8233 ∷ 8239 ∷ 8287 ∷ 12288 ∷ 65279 ∷ []) c

unfoldable pub trim_start : String → String
trim_start empty = empty
trim_start (c ∷s s) = if is_space (code c) then trim_start s else c ∷s s

unfoldable pub trim_end : String → String
trim_end empty = empty
trim_end (c ∷s s) =
    let rest = trim_end s in if is_space (code c) && rest == "" then empty else c ∷s rest

abbrev letters : List String
letters =
    "A" ∷ "B" ∷ "C" ∷ "D" ∷ "E" ∷ "F" ∷ "G" ∷ "H" ∷ "I" ∷ "J" ∷ "K" ∷ "L" ∷ "M" ∷ "N" ∷ "O" ∷ "P"
    ∷ "Q" ∷ "R" ∷ "S" ∷ "T" ∷ "U" ∷ "V" ∷ "W" ∷ "X" ∷ "Y" ∷ "Z" ∷ []

-- The characters outside a–z whose upper case is made of the letters A–Z: ß, ı, ſ and the ligatures.
-- Every other character stands for itself here: its upper case is no letter A–Z either.
abbrev folded : ℕ → String
folded c =
    if c == 223
    then "SS"
    else if c == 305
    then "I"
    else if c == 383
    then "S"
    else get_or (get_elem? ("FF" ∷ "FI" ∷ "FL" ∷ "FFI" ∷ "FFL" ∷ "ST" ∷ "ST" ∷ []) (c - 64256)) ""

abbrev pub is_lower : ℕ → Bool
is_lower c = leb 97 c && leb c 122

abbrev pub is_folded : ℕ → Bool
is_folded c = c == 223 || c == 305 || c == 383 || (leb 64256 c && leb c 64262)

-- `toUpperCase`
unfoldable pub upper : String → String
upper empty = empty
upper (c ∷s s) =
    let rest = upper s in
    if is_lower (code c)
    then get_or (get_elem? letters (code c - 97)) "" +s rest
    else if is_folded (code c)
    then folded (code c) +s rest
    else c ∷s rest

-- `replace('/', '-')`: the first one only
unfoldable pub replace_slash : String → String
replace_slash empty = empty
replace_slash (c ∷s s) = let rest = replace_slash s in if code c == 47 then "-" +s s else c ∷s rest

abbrev pub is_alnum : ℕ → Bool
is_alnum c = (leb 65 c && leb c 90) || (leb 48 c && leb c 57)

-- `INSTRUMENT`, where `part` says that the part being read has a character, and `dashed` that a dash
-- has been read
unfoldable pub matches_from : Bool → Bool → String → Bool
matches_from part dashed empty = part && dashed
matches_from part dashed (c ∷s s) =
    let after_dash = matches_from false true s in
    let after_letter = matches_from true dashed s in
    if code c == 45 then part && after_dash else is_alnum (code c) && after_letter

abbrev pub is_instrument : String → Bool
is_instrument s = matches_from false false s

unfoldable pub normalize_symbol : String → Option String
normalize_symbol value =
    let symbol = replace_slash (upper (trim_end (trim_start value))) in
    if is_instrument symbol then some symbol else none
