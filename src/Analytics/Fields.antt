-- ===== src/Analytics/Fields.antt =====
-- apps/web/src/pages/ExecutionAnalytics/executionModel.ts: numbers and times of a record, as they come
-- from JSON, and the amount of a fill.
use Prim.Native.Char.{code}
use Prim.Native.String.{String, [] as empty, ◌∷◌ as ◌∷s◌, ◌++◌ as ◌+s◌}
use montlok_terminal.Prelude.{
  ℕ, ◌^◌, Bool, true, false, not, ◌&&◌, ◌||◌, List, [], ◌∷◌, Option, none, some, if◌then◌else◌,
  ◌==◌, string_eq, nat_eq, leb, any,
}
use montlok_terminal.Prelude.Numbers.{Numbers, at_least}
use montlok_terminal.JsMap.{get}
use montlok_terminal.Json.{Json, Items, nil, cons}
use montlok_terminal.Console.Upload.{is_truthy, is_null}
use montlok_terminal.Watchlist.Symbols.{trim_start}

-- An object of the server's answer: its properties.
abbrev pub Row : Type 0
Row = List (String × Json)

abbrev is_nil : Items → Bool
is_nil nil = true
is_nil (cons j js) = false

-- `String(value)`
abbrev mutual
  pub text_of : Json → String
  text_of Json.null = "null"
  text_of (Json.bool b) = if b then "true" else "false"
  text_of (Json.number text) = text
  text_of (Json.string s) = s
  text_of (Json.array js) = join_items js
  text_of (Json.object fields) = "[object Object]"

  -- `join(',')`, where `null` counts as empty
  pub join_items : Items → String
  join_items nil = ""
  join_items (cons j js) =
      let item = text_of j in
      let rest = join_items js in
      (if is_null j then "" else item) +s (if is_nil js then "" else "," +s rest)

-- `String(value || fallback)`
abbrev pub text_or : Option Json → String → String
text_or none fallback = fallback
text_or (some j) fallback = if is_truthy j then text_of j else fallback

abbrev pub is_text : Option Json → String → Bool
is_text (some (Json.string s)) t = s == t
is_text _ t = false

-- Whether `finite` converts the value: it is neither missing, nor a truth value, nor blank.
abbrev pub is_given : Option Json → Bool
is_given none = false
is_given (some Json.null) = false
is_given (some (Json.bool b)) = false
is_given (some (Json.string s)) = not (trim_start s == "")
is_given (some j) = true

module _ {N : Type 0} ⦃n : Numbers N⦄ where
  unfoldable pub finite : Option Json → Option N
  finite value =
      if is_given value && n.is_finite (n.number value) then some (n.number value) else none

  -- The seconds of a number in nanoseconds, microseconds, milliseconds or seconds.
  unfoldable pub seconds_of : N → N
  seconds_of x =
      if at_least x (n.of_nat (10 ^ 18))
      then n.div x (n.of_nat (10 ^ 9))
      else if at_least x (n.of_nat (10 ^ 15))
      then n.div x (n.of_nat (10 ^ 6))
      else if at_least x (n.of_nat (10 ^ 12))
      then n.div x (n.of_nat 1000)
      else x

module _ (N : Type 0) ⦃n : Numbers N⦄ where
  -- From 2000 to 2199. A value that is no text and no finite number has no time.
  abbrev in_range : N → Option ℕ
  in_range x =
      if n.is_finite x && at_least x (n.of_nat 946684800) && n.lt x (n.of_nat 7258118400)
      then some (n.to_nat x)
      else none

  unfoldable pub execution_time : Option Json → Option ℕ
  execution_time value = elim (finite value) [
    | some x ↦ in_range (seconds_of x)
    | none ↦ elim value [
      | some (Json.string s) ↦ in_range (n.div (n.parse_date s) (n.of_nat 1000))
      | _ ↦ none
    ]
  ]

abbrev pub ends_with : String → String → Bool
ends_with empty p = p == ""
ends_with (c ∷s s) p = let rest = ends_with s p in (c ∷s s) == p || rest

-- `/-USDT(?:-SWAP)?(?:\.OKX)?$/`
unfoldable pub is_quoted_usdt : String → Bool
is_quoted_usdt s = any (ends_with s) ("-USDT" ∷ "-USDT-SWAP" ∷ "-USDT.OKX" ∷ "-USDT-SWAP.OKX" ∷ [])

abbrev is_capital_or_digit : ℕ → Bool
is_capital_or_digit c = (leb 48 c && leb c 57) || (leb 65 c && leb c 90)

-- `/^[A-Z0-9]+-USDT(?:\.OKX)?$/`; `started` says that a character of the class came before
unfoldable pub is_spot_usdt : Bool → String → Bool
is_spot_usdt started empty = false
is_spot_usdt started (c ∷s s) =
    let rest = is_spot_usdt true s in
    if is_capital_or_digit (code c)
    then rest
    else started && ((c ∷s s) == "-USDT" || (c ∷s s) == "-USDT.OKX")

module _ {N : Type 0} ⦃n : Numbers N⦄ where
  -- `quantity * price` of a spot fill, where both are positive
  unfoldable pub product_notional : String → Option N → Option N → Option N
  product_notional instrument (some quantity) (some price) =
      if is_spot_usdt false instrument
        && n.lt (n.of_nat 0) quantity
        && n.lt (n.of_nat 0) price
        && n.is_finite (n.mul quantity price)
      then some (n.mul quantity price)
      else none
  product_notional instrument _ _ = none

  unfoldable pub fill_notional : Row → Option N
  fill_notional fill =
      let instrument = text_or (get fill "instrument") "" in
      let product =
        product_notional instrument (finite (get fill "quantity")) (finite (get fill "price")) in
      elim (finite (get fill "notional")) [
        | none ↦ product
        | some reported ↦
            if at_least reported (n.of_nat 0)
              && (is_text (get fill "quoteCurrency") "USDT" || is_quoted_usdt instrument)
            then some reported
            else product
      ]
