-- ===== src/Watchlist/Saving.antt =====
-- apps/web/src/operator/watchlistModel.ts: what is saved is loaded again.
use montlok_terminal.Prelude.{
  ℕ, zero, suc, ◌≤◌, String, ◌≡◌, refl, ap, sym, ◌∙◌, true, false, List, [], ◌∷◌, ◌++◌, Option,
  some, arith, string_eq, includes, length, take, All, Distinct, append_assoc, includes-append,
  append-nil,
}
use montlok_terminal.Json.{Json, array, items}
use montlok_terminal.Watchlist.Symbols.{is_instrument}
use montlok_terminal.Watchlist.Naming.{normalize_symbol-instrument}
use montlok_terminal.Watchlist.Lists.{
  watchlist_limit, symbols_of, unique_onto, load_watchlist, save_watchlist, to_items,
}
use montlok_terminal.Watchlist.Keeping.{IsWatchlist}

symbols_of-to_items :
    (xs : List String)
    → All (λ x. is_instrument x ≡ true) xs
    → symbols_of (items (to_items xs)) ≡ xs
unfolding symbols_of
symbols_of-to_items [] h = refl
symbols_of-to_items (x ∷ xs) h =
    rw (symbols_of, normalize_symbol-instrument x h.0, symbols_of-to_items xs h.1)

-- No item of the second list is among the first.
abbrev Apart : List String → List String → Type 0
Apart seen xs = All (λ x. includes seen x ≡ false) xs

Apart-append_one :
    (seen : List String) (x : String) (xs : List String)
    → includes xs x ≡ false
    → Apart seen xs
    → Apart (seen ++ x ∷ []) xs
Apart-append_one seen x [] n h = tt
Apart-append_one seen x (y ∷ xs) n h = (
  ground (
    arith,
    n,
    h.0,
    includes-append seen (x ∷ []) y,
    string_eq.beq_iff x y,
    string_eq.beq_iff y x,
  ),
  Apart-append_one seen x xs (ground (arith, n)) h.1,
)

unique_onto-Distinct :
    (seen xs : List String) → Distinct xs → Apart seen xs → unique_onto seen xs ≡ seen ++ xs
unfolding unique_onto
unique_onto-Distinct seen [] d h = sym (append-nil seen)
unique_onto-Distinct seen (x ∷ xs) d h = rw h.0 (
    unique_onto-Distinct (seen ++ x ∷ []) xs d.1 (Apart-append_one seen x xs d.0 h.1)
    ∙ append_assoc seen (x ∷ []) xs)

Apart-nil : (xs : List String) → Apart [] xs
Apart-nil [] = tt
Apart-nil (x ∷ xs) = (refl, Apart-nil xs)

take-all : (n : ℕ) (xs : List String) → length xs ≤ n → take n xs ≡ xs
take-all zero [] h = refl
take-all zero (x ∷ xs) h = absurd (omega arith)
take-all (suc n) [] h = refl
take-all (suc n) (x ∷ xs) h = ap (◌∷◌ x) (take-all n xs (omega arith))

-- A watchlist that is not empty comes back from a storage that works exactly as it was saved, whatever
-- was stored before, where the language's JSON reads back the list that it wrote.
pub load_watchlist-save_watchlist :
    (parse : String → Option Json) (stringify : Json → String) (stored : Option String) (x : String)
    (xs : List String)
    → parse (stringify (array (to_items (x ∷ xs)))) ≡ some (array (to_items (x ∷ xs)))
    → IsWatchlist (x ∷ xs)
    → load_watchlist parse (save_watchlist stringify true stored (x ∷ xs)) ≡ x ∷ xs
unfolding load_watchlist save_watchlist
load_watchlist-save_watchlist parse stringify stored x xs law w =
    rw
      (
        load_watchlist,
        law,
        symbols_of-to_items (x ∷ xs) w.names,
        unique_onto-Distinct [] (x ∷ xs) w.distinct (Apart-nil (x ∷ xs)),
      )
      (take-all watchlist_limit (x ∷ xs) w.bounded)
