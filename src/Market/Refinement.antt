-- ===== src/Market/Refinement.antt =====
-- apps/web/src/operator/marketBuffer.ts: the buffer implements a feed, which forgets that the page is
-- brought up to date in batches.
use montlok_terminal.Prelude.{
  String, ◌≡◌, refl, ap, ◌∙◌, Bool, true, false, List, [], ◌∷◌, ◌++◌, Option, none, some, arith,
  if◌then◌else◌, ◌==◌, string_eq, take, Distinct, suc, zero, ℕ, All, ◌≤◌,
}
use montlok_terminal.JsMap.{
  get, set_all, keys, get-set, get-set_all, Distinct-keys-set, Distinct-keys-set_all, has,
}
use montlok_terminal.Json.{Json, array}
use montlok_terminal.Market.Buffer.{
  Value, json, Row, of_items, MarketBuffer, new_buffer, append_trades, put, drain,
}

pub data Call (N : Type 0) : Type 0 where
  appends : List Json → Call N
  puts : String → Value N → Call N
  drains : Call N

-- The page with its buffer: a batch is spread over the row that is shown.
pub record Page (N : Type 0) : Type 0 where
  pub buffer : MarketBuffer N
  pub row : Row N

-- What the buffer promises: the newest value of each property, and every trade ever seen.
pub record Feed (N : Type 0) : Type 0 where
  pub newest : String → Option (Value N)
  pub history : List Json

take-take : {A : Type 0} (m n : ℕ) (xs : List A) → m ≤ n → take m (take n xs) ≡ take m xs
take-take zero n xs h = refl
take-take (suc m) zero xs h = absurd (omega (arith, h))
take-take (suc m) (suc n) [] h = refl
take-take (suc m) (suc n) (x ∷ xs) h = ap (◌∷◌ x) (take-take m n xs (omega (arith, h)))

take-append-take :
    {A : Type 0} (m n : ℕ) (xs ys : List A) → m ≤ n → take m (xs ++ take n ys) ≡ take m (xs ++ ys)
take-append-take m n [] ys h = take-take m n ys h
take-append-take zero n (x ∷ xs) ys h = refl
take-append-take (suc m) n (x ∷ xs) ys h =
    ap (◌∷◌ x) (take-append-take m n xs ys (omega (arith, h)))

module _ {N : Type 0} where
  unfoldable pub call_page : Page N → Call N → Page N
  call_page p (appends rows) = record p { buffer = append_trades p.buffer rows }
  call_page p (puts key value) = record p { buffer = put p.buffer key value }
  call_page p drains =
      let drained = drain p.buffer in
      elim drained.1 [
        | none ↦ record p { buffer = drained.0 }
        | some batch ↦ record { buffer = drained.0; row = set_all p.row batch }
      ]

  abbrev pub new_page : Page N
  new_page = record { buffer = new_buffer; row = [] }

  abbrev pub new_feed : Feed N
  new_feed = record { newest = λ k. none; history = [] }

  abbrev changed : (String → Option (Value N)) → String → Value N → String → Option (Value N)
  changed f key value k = if key == k then some value else f k

  unfoldable pub call_feed : Feed N → Call N → Feed N
  call_feed f (appends rows) = record {
    history = rows ++ f.history;
    newest = changed f.newest "trades" (json (array (of_items (take 60 (rows ++ f.history)))));
  }
  call_feed f (puts key value) = record f { newest = changed f.newest key value }
  call_feed f drains = f

  unfoldable pub calls_page : Page N → List (Call N) → Page N
  calls_page p [] = p
  calls_page p (c ∷ cs) = calls_page (call_page p c) cs

  unfoldable pub calls_feed : Feed N → List (Call N) → Feed N
  calls_feed f [] = f
  calls_feed f (c ∷ cs) = calls_feed (call_feed f c) cs

  -- The page's row, once the buffer is drained.
  abbrev due : Page N → String → Option (Value N)
  due p k =
      if "trades" == k
      then if p.buffer.trades_changed
        then some (json (array (of_items p.buffer.trades)))
        else get p.row k
      else if has p.buffer.pending k
      then get p.buffer.pending k
      else get p.row k

  -- `newest` is compared at one property; the page's pending properties are in no order.
  abbrev Refines : Page N → Feed N → Type 0
  Refines p f =
      (p.buffer.trades ≡ take 60 f.history)
      × Distinct (keys p.buffer.pending)
      × (has p.buffer.pending "trades" ≡ false)
      × ((k : String) → due p k ≡ f.newest k)

  abbrev pub is_other : Call N → Bool
  is_other (puts key value) = if key == "trades" then false else true
  is_other _ = true

  get-batch :
      (row pending tail : Row N) (k : String)
      → Distinct (keys pending)
      → Distinct (keys tail)
      → get (set_all row (set_all (set_all [] pending) tail)) k
        ≡ (if has tail k then get tail k else if has pending k then get pending k else get row k)
  get-batch row pending tail k dp dt = ground (
    arith,
    get-set_all row (set_all (set_all [] pending) tail) k
        (Distinct-keys-set_all (set_all [] pending) tail (Distinct-keys-set_all [] pending tt)),
    get-set_all (set_all [] pending) tail k dt,
    get-set_all [] pending k dp,
  )

  abbrev page : Row N → List Json → Bool → Row N → Page N
  page pending trades changes row = record {
    buffer = record { pending = pending; trades = trades; trades_changed = changes };
    row = row;
  }

  drains-Refines :
      (pending : Row N) (trades : List Json) (changes : Bool) (row : Row N) (f : Feed N)
      → Refines (page pending trades changes row) f
      → Refines (call_page (page pending trades changes row) drains) f
  unfolding call_page drain
  drains-Refines [] trades false row f h = h
  drains-Refines [] trades true row f h = (
    h.0,
    tt,
    refl,
    λ k. ground (
      arith,
      h.3 k,
      get-batch row [] (("trades", json (array (of_items trades))) ∷ []) k tt (refl, tt),
    ),
  )
  drains-Refines (x ∷ pending) trades false row f h = (
    h.0,
    tt,
    refl,
    λ k.
        ground (
          arith,
          h.2,
          h.3 k,
          get-batch row (x ∷ pending) [] k h.1 tt,
          string_eq.beq_iff "trades" k,
        ),
  )
  drains-Refines (x ∷ pending) trades true row f h = (
    h.0,
    tt,
    refl,
    λ k. ground (
      arith,
      h.2,
      h.3 k,
      get-batch row (x ∷ pending) (("trades", json (array (of_items trades))) ∷ []) k h.1
          (refl, tt),
    ),
  )

  call-Refines :
      (p : Page N) (f : Feed N) (c : Call N)
      → is_other c ≡ true
      → Refines p f
      → Refines (call_page p c) (call_feed f c)
  unfolding call_page call_feed append_trades drain
  call-Refines p f (appends rows) o h = (
    rw h.0 (take-append-take 60 60 rows f.history (omega arith)),
    h.1,
    h.2,
    λ k. ground (arith, h.3 k, h.0, take-append-take 60 60 rows f.history (omega arith)),
  )
  call-Refines p f (puts key value) o h = (
    h.0,
    Distinct-keys-set p.buffer.pending key value h.1,
    ground (arith, h.2, o, get-set p.buffer.pending key value "trades"),
    λ k. ground (
      arith,
      h.2,
      h.3 k,
      o,
      get-set p.buffer.pending key value k,
      string_eq.beq_iff key k,
      string_eq.beq_iff key "trades",
      string_eq.beq_iff "trades" k,
    ),
  )
  call-Refines p f drains o h =
      drains-Refines p.buffer.pending p.buffer.trades p.buffer.trades_changed p.row f h

  calls-Refines_from :
      (p : Page N) (f : Feed N) (calls : List (Call N))
      → All (λ c. is_other c ≡ true) calls
      → Refines p f
      → Refines (calls_page p calls) (calls_feed f calls)
  unfolding calls_page calls_feed
  calls-Refines_from p f [] o h = h
  calls-Refines_from p f (c ∷ cs) o h =
      calls-Refines_from (call_page p c) (call_feed f c) cs o.1 (call-Refines p f c o.0 h)

  drained-IsEmpty :
      (pending : Row N) (trades : List Json) (changes : Bool) (row : Row N)
      → let p = call_page (page pending trades changes row) drains in
        (p.buffer.pending ≡ []) × (p.buffer.trades_changed ≡ false)
  unfolding call_page drain
  drained-IsEmpty [] trades false row = (refl, refl)
  drained-IsEmpty [] trades true row = (refl, refl)
  drained-IsEmpty (x ∷ pending) trades false row = (refl, refl)
  drained-IsEmpty (x ∷ pending) trades true row = (refl, refl)

  due_drained :
      (p : Page N) (k : String) → get (call_page p drains).row k ≡ due (call_page p drains) k
  due_drained p k =
      ground (arith, drained-IsEmpty p.buffer.pending p.buffer.trades p.buffer.trades_changed p.row)

  -- Whatever calls there were, in whatever order, beginning with an empty page: the buffer holds the
  -- newest sixty of all trades that were appended, and once it is drained the page shows the newest
  -- value of every property that was put, and those trades. No call puts a property named `trades`.
  pub calls-Refines :
      (calls : List (Call N)) (k : String)
      → All (λ c. is_other c ≡ true) calls
      → ((calls_page new_page calls).buffer.trades ≡ take 60 (calls_feed new_feed calls).history)
        × (get (call_page (calls_page new_page calls) drains).row k
            ≡ (calls_feed new_feed calls).newest k)
  unfolding calls_feed call_feed
  calls-Refines calls k o =
      let h = calls-Refines_from new_page new_feed calls o (refl, tt, refl, λ j. ground arith) in
      let d = call-Refines (calls_page new_page calls) (calls_feed new_feed calls) drains refl h in
      (h.0, due_drained (calls_page new_page calls) k ∙ d.3 k)
