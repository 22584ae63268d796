-- ===== src/Market/Rows.antt =====
-- apps/web/src/operator/useMarket.ts: what the language's operators do on parsed JSON. A JSON value is
-- what `JSON.parse` or a server's answer gave; an access to a property of `null` throws, `none`.
use Prim.Native.Char.{code}
use Prim.Native.String.{String, [] as empty, ◌∷◌ as ◌∷s◌}
use montlok_terminal.Prelude.{
  ℕ, Bool, true, false, not, ◌&&◌, List, [], ◌∷◌, Option, none, some, if◌then◌else◌, ◌==◌,
  string_eq, nat_eq, get_elem?, get_or,
}
use montlok_terminal.Prelude.Decimal.{decimal}
use montlok_terminal.JsMap.{get}
use montlok_terminal.Json.{Json, items, as_string, entries}
use montlok_terminal.Console.Upload.{is_truthy, property_of, is_null}
use montlok_terminal.Market.Buffer.{is_empty}

-- The characters of a text, each a text, as a spread gives them.
abbrev pub characters : String → List Json
characters empty = []
characters (c ∷s s) = Json.string (c ∷s empty) ∷ characters s

-- `[...value]`, which throws unless the value is an array or a text
abbrev pub spread : Json → Option (List Json)
spread (Json.array js) = some (items js)
spread (Json.string s) = some (characters s)
spread _ = none

-- `value?.length`, as a condition
abbrev pub has_length : Json → Bool
has_length (Json.array js) = not (is_empty (items js))
has_length (Json.string s) = not (s == "")
has_length j = is_truthy (property_of j "length")

-- `value[i]`; where `value` is `null` it throws, see the callers
abbrev pub at : Json → ℕ → Option Json
at (Json.array js) i = get_elem? (items js) i
at (Json.string s) i = get_elem? (characters s) i
at (Json.object fields) i = get (entries fields) (decimal i)
at _ i = none

-- `value.name`, `none` where it is missing
abbrev pub property? : Json → String → Option Json
property? (Json.object fields) name = get (entries fields) name
property? _ name = none

abbrev pub starts_with : String → String → Bool
starts_with s empty = true
starts_with empty (c ∷s p) = false
starts_with (d ∷s s) (c ∷s p) = let rest = starts_with s p in code d == code c && rest

-- `rows.find((row) => row.instId === instrument)` where the rows are an array. A row that is `null`
-- throws, and the `catch` drops the answer.
abbrev pub find_instrument : List Json → String → Option (Option Json)
find_instrument [] instrument = some none
find_instrument (row ∷ rows) instrument =
    let rest = find_instrument rows instrument in
    if is_null row
    then none
    else if get_or (as_string (property_of row "instId")) "" == instrument
    then some (some row)
    else rest

abbrev pub is_channel : Option Json → String → Bool
is_channel none name = false
is_channel (some j) name = elim (as_string j) [ none ↦ false | some s ↦ s == name ]

abbrev pub is_candle_channel : Option Json → Bool
is_candle_channel none = false
is_candle_channel (some j) = elim (as_string j) [ none ↦ false | some s ↦ starts_with s "candle" ]

abbrev pub first_property : Option Json → String → Option Json
first_property none name = none
first_property (some j) name = property? j name
