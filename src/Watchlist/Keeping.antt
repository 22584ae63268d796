-- ===== src/Watchlist/Keeping.antt =====
-- apps/web/src/operator/watchlistModel.ts: the list stays a list of instruments.
use montlok_terminal.Prelude.{
  ℕ, zero, suc, ◌≤◌, String, ◌≡◌, refl, inl, inr, ◌⊎◌, true, false, not, ◌&&◌, ◌||◌, List, [], ◌∷◌,
  ◌++◌, Option, none, some, arith, leb, ◌==◌, nat_eq, string_eq, includes, length, take, get_or,
  All, Distinct, Option-cases, Bool-cases, length-append, length-take, length-filter-le,
  includes-append, includes-filter, Distinct-append_one, Distinct-filter, All-append, All-filter,
}
use montlok_terminal.Json.{Json, array_items, as_string}
use montlok_terminal.Watchlist.Symbols.{is_instrument, matches_from, normalize_symbol}
use montlok_terminal.Watchlist.Naming.{normalize_symbol-again}
use montlok_terminal.Watchlist.Lists.{
  watchlist_limit, default_watchlist, symbols_of, unique_onto, load_watchlist, add_symbol,
  remove_symbol,
}

abbrev IsName : String → Type 0
IsName s = is_instrument s ≡ true

-- The names of instruments, each once, at most twelve.
pub record IsWatchlist (symbols : List String) : Type 0 where
  pub names : All IsName symbols
  pub distinct : Distinct symbols
  pub bounded : length symbols ≤ watchlist_limit

symbols_of-names : (js : List Json) → All IsName (symbols_of js)
unfolding symbols_of
symbols_of-names [] = tt
symbols_of-names (j ∷ js) = elim (Option-cases (as_string j)) [
  | inl q ↦ rw (symbols_of, q) (symbols_of-names js)
  | inr (text, q) ↦ elim (Option-cases (normalize_symbol text)) [
    | inl p ↦ rw (symbols_of, q, p) (symbols_of-names js)
    | inr (symbol, p) ↦
        rw (symbols_of, q, p) ((normalize_symbol-again text symbol p).0, symbols_of-names js)
  ]
]

unique_onto-IsUnique :
    (seen xs : List String)
    → All IsName seen
    → Distinct seen
    → All IsName xs
    → All IsName (unique_onto seen xs) × Distinct (unique_onto seen xs)
unfolding unique_onto
unique_onto-IsUnique seen [] n d h = (n, d)
unique_onto-IsUnique seen (x ∷ xs) n d h = elim (Bool-cases (includes seen x)) [
  | inl q ↦ rw q (unique_onto-IsUnique seen xs n d h.1)
  | inr q ↦ rw q (
      unique_onto-IsUnique (seen ++ x ∷ []) xs (All-append IsName seen (x ∷ []) n (h.0, tt))
        (Distinct-append_one seen x d q) h.1)
]

includes-take-le :
    (n : ℕ) (xs : List String) (a : String) → includes xs a ≡ false → includes (take n xs) a ≡ false
includes-take-le zero xs a h = refl
includes-take-le (suc n) [] a h = refl
includes-take-le (suc n) (x ∷ xs) a h = ground (arith, h, includes-take-le n xs a)

Distinct-take : (n : ℕ) (xs : List String) → Distinct xs → Distinct (take n xs)
Distinct-take zero xs d = tt
Distinct-take (suc n) [] d = tt
Distinct-take (suc n) (x ∷ xs) d = (includes-take-le n xs x d.0, Distinct-take n xs d.1)

All-take : (n : ℕ) (xs : List String) → All IsName xs → All IsName (take n xs)
All-take zero xs h = tt
All-take (suc n) [] h = tt
All-take (suc n) (x ∷ xs) h = (h.0, All-take n xs h.1)

default-IsWatchlist : IsWatchlist default_watchlist
unfolding matches_from
default-IsWatchlist = record {
  names = (refl, (refl, (refl, (refl, tt))));
  distinct = (refl, (refl, (refl, (refl, tt))));
  bounded = omega arith;
}

listed-IsWatchlist :
    (xs : List String) → All IsName xs → IsWatchlist (take watchlist_limit (unique_onto [] xs))
listed-IsWatchlist xs h =
    let (names, distinct) = unique_onto-IsUnique [] xs tt tt h in
    record {
      names = All-take watchlist_limit _ names;
      distinct = Distinct-take watchlist_limit _ distinct;
      bounded = omega (arith, length-take watchlist_limit (unique_onto [] xs));
    }

List-cases : (xs : List String) → (xs ≡ []) ⊎ ((x : String) × (ys : List String) × (xs ≡ x ∷ ys))
List-cases [] = inl refl
List-cases (x ∷ xs) = inr (x, xs, refl)

-- Whatever the storage holds, nothing, a broken text, another value or any list, the watchlist that is
-- loaded names instruments only, each once, at most twelve.
pub load_watchlist-IsWatchlist :
    (parse : String → Option Json) (raw : Option String) → IsWatchlist (load_watchlist parse raw)
unfolding load_watchlist
load_watchlist-IsWatchlist parse raw = elim (Option-cases (parse (get_or raw ""))) [
  | inl q ↦ rw (load_watchlist, q) default-IsWatchlist
  | inr (parsed, q) ↦ elim (Option-cases (array_items parsed)) [
    | inl p ↦ rw (load_watchlist, q, p) default-IsWatchlist
    | inr (js, p) ↦ elim (List-cases (symbols_of js)) [
      | inl e ↦ rw (load_watchlist, q, p, e) default-IsWatchlist
      | inr (x, xs, e) ↦
          rw (load_watchlist, q, p, e) (listed-IsWatchlist (x ∷ xs) (rw e at (symbols_of-names js)))
    ]
  ]
]

-- After an addition: the same list where no instrument was named, else the instrument unless the list
-- was full.
abbrev pub Holds : List String → List String → Option String → Type 0
Holds before after none = after ≡ before
Holds before after (some symbol) =
    includes after symbol ≡ (includes before symbol || not (leb watchlist_limit (length before)))

module _ (symbols : List String) (w : IsWatchlist symbols) where
  -- Adding keeps the list a watchlist. It then holds the instrument that the text names, unless the
  -- list was full; without one, or with one that is there already, nothing changes.
  pub add_symbol-IsWatchlist :
      (value : String)
      → IsWatchlist (add_symbol symbols value)
        × Holds symbols (add_symbol symbols value) (normalize_symbol value)
  unfolding add_symbol
  add_symbol-IsWatchlist value = elim (Option-cases (normalize_symbol value)) [
    | inl q ↦ rw (add_symbol, q) (w, refl)
    | inr (symbol, q) ↦
        elim (Bool-cases (includes symbols symbol || leb watchlist_limit (length symbols))) [
          | inl p ↦ rw (add_symbol, q, p) (w, ground (arith, p))
          | inr p ↦
              rw (add_symbol, q, p)
                (
                  record {
                    names =
                        All-append IsName symbols (symbol ∷ []) w.names
                          ((normalize_symbol-again value symbol q).0, tt);
                    distinct = Distinct-append_one symbols symbol w.distinct (ground (arith, p));
                    bounded = ground (arith, p, length-append symbols (symbol ∷ []));
                  },
                  ground (
                    arith,
                    p,
                    includes-append symbols (symbol ∷ []) symbol,
                    string_eq.beq_iff symbol symbol,
                  ),
                )
        ]
  ]

  -- Removing keeps the list a watchlist without that instrument and with all the others.
  pub remove_symbol-IsWatchlist :
      (symbol other : String)
      → IsWatchlist (remove_symbol symbols symbol)
        × (includes (remove_symbol symbols symbol) other
            ≡ (includes symbols other && not (other == symbol)))
  unfolding remove_symbol
  remove_symbol-IsWatchlist symbol other = (
    record {
      names = All-filter IsName (λ item. not (item == symbol)) symbols w.names;
      distinct = Distinct-filter (λ item. not (item == symbol)) symbols w.distinct;
      bounded = omega (arith, w.bounded, length-filter-le (λ item. not (item == symbol)) symbols);
    },
    includes-filter (λ item. not (item == symbol)) symbols other,
  )
