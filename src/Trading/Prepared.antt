-- ===== src/Trading/Prepared.antt =====
-- apps/web/src/operator/OrderTicket.tsx: the ticket that is confirmed is the order that is shown.
use montlok_terminal.Prelude.{
  Option, String, ◌≡◌, ◌⊎◌, refl, sym, ap, ◌∙◌, inl, inr, true, ◌&&◌, List, [], ◌∷◌, none, some,
  arith, ◌==◌, string_eq, Bool-cases, Option-cases, All,
}
use montlok_terminal.Prelude.Int.{ℤ, pos, negsuc}
use montlok_terminal.Prelude.Numbers.{Numbers}
use montlok_terminal.JsMap.{get}
use montlok_terminal.Trading.Order.{
  Side, buy, sell, OrderType, limit, market, Context, same_side, same_type, same_epoch,
  same_context, OrderTicket, price_argument, order_arguments, is_positive, refusal, Event,
  sets_side, sets_type, sets_quantity, sets_price, shows, prepares, prepared, refused, closes,
  completes, prepare, set_context, show, start_prepare, step, run,
}

same_epoch-eq : (a b : ℤ) → same_epoch a b ≡ true → a ≡ b
same_epoch-eq (pos a) (pos b) h = ap pos (ground (arith, h))
same_epoch-eq (negsuc a) (negsuc b) h = ap negsuc (ground (arith, h))
same_epoch-eq (pos a) (negsuc b) h = absurd (ground (arith, h))
same_epoch-eq (negsuc a) (pos b) h = absurd (ground (arith, h))

same_side-eq : (a b : Side) → same_side a b ≡ true → a ≡ b
same_side-eq buy buy h = refl
same_side-eq sell sell h = refl
same_side-eq buy sell h = absurd (ground (arith, h))
same_side-eq sell buy h = absurd (ground (arith, h))

same_type-eq : (a b : OrderType) → same_type a b ≡ true → a ≡ b
same_type-eq limit limit h = refl
same_type-eq market market h = refl
same_type-eq limit market h = absurd (ground (arith, h))
same_type-eq market limit h = absurd (ground (arith, h))

same_context-eq : (a b : Context) → same_context a b ≡ true → a ≡ b
same_context-eq a b h = ground (
  arith,
  h,
  string_eq.beq_iff a.instrument b.instrument,
  same_epoch-eq a.epoch b.epoch,
  same_side-eq a.side b.side,
  same_type-eq a.order_type b.order_type,
  string_eq.beq_iff a.quantity b.quantity,
  string_eq.beq_iff a.price b.price,
)

module _ {T : Type 0} (context_of : T → Context) where
  -- The ticket of an answer is of the context that was asked about.
  abbrev pub Answers : Event T → Type 0
  Answers (prepared context ticket) = context_of ticket ≡ context
  Answers _ = Unit

  abbrev Keeps : OrderTicket T → Type 0
  Keeps s = (t : T) → s.ticket ≡ some t → context_of t ≡ s.context

  set_context-Keeps : (s : OrderTicket T) (c : Context) → Keeps s → Keeps (set_context s c)
  unfolding set_context
  set_context-Keeps s c h = λ t q. elim (Bool-cases (same_context s.context c)) [
    | inl b ↦ h t (ground (arith, q, b)) ∙ same_context-eq s.context c b
    | inr b ↦ absurd (ground (arith, q, b))
  ]

  show-Keeps :
      (s : OrderTicket T) (instrument : String) (epoch : ℤ)
      → Keeps s
      → Keeps (show s instrument epoch)
  unfolding show
  show-Keeps s instrument epoch h =
      elim (Bool-cases (s.context.instrument == instrument && same_epoch s.context.epoch epoch)) [
        | inl b ↦ rw b h
        | inr b ↦ rw b (λ t q. absurd (ground (arith, q)))
      ]

  module _ (N : Type 0) ⦃n : Numbers N⦄ where
    start_prepare-Keeps : (s : OrderTicket T) → Keeps s → Keeps (start_prepare N s).0
    unfolding start_prepare
    start_prepare-Keeps s h = elim (Option-cases (refusal N s.context)) [
      | inl q ↦ rw (start_prepare, q) h
      | inr (e, q) ↦ rw (start_prepare, q) h
    ]

    step-Keeps : (s : OrderTicket T) (e : Event T) → Answers e → Keeps s → Keeps (step N s e).0
    unfolding step
    step-Keeps s (sets_side side) a h = set_context-Keeps s _ h
    step-Keeps s (sets_type type) a h = set_context-Keeps s _ h
    step-Keeps s (sets_quantity text) a h = set_context-Keeps s _ h
    step-Keeps s (sets_price text) a h = set_context-Keeps s _ h
    step-Keeps s (shows instrument epoch) a h = show-Keeps s instrument epoch h
    step-Keeps s prepares a h = start_prepare-Keeps s h
    step-Keeps s (prepared context ticket) a h = λ t q.
        elim (Bool-cases (same_context s.context context)) [
          | inl b ↦
              ap context_of (ground (arith, q, b)) ∙ a ∙ sym (same_context-eq s.context context b)
          | inr b ↦ h t (ground (arith, q, b))
        ]
    step-Keeps s (refused error) a h = h
    step-Keeps s closes a h = λ t q. absurd (ground (arith, q))
    step-Keeps s (completes value) a h = h

    run-Keeps :
        (s : OrderTicket T) (es : List (Event T)) → Keeps s → All Answers es → Keeps (run N s es)
    unfolding run
    run-Keeps s [] h a = h
    run-Keeps s (e ∷ es) h a = run-Keeps (step N s e).0 es (step-Keeps s e a.0 h) a.1

  -- The ticket that the form shows, if any, was prepared for the fields that it shows.
  abbrev pub Shows : Option T → Context → Type 0
  Shows none c = Unit
  Shows (some t) c = context_of t ≡ c

  abbrev pub IsShown : OrderTicket T → Type 0
  IsShown s = Shows s.ticket s.context

  kept_ticket : (o : Option T) (c : Context) → Shows o c → (t : T) → o ≡ some t → context_of t ≡ c
  kept_ticket none c h t q = absurd (ground (arith, q))
  kept_ticket (some u) c h t q = ap context_of (ground (arith, q)) ∙ h

  shown_ticket :
      (o : Option T) (c : Context) → ((t : T) → o ≡ some t → context_of t ≡ c) → Shows o c
  shown_ticket none c h = tt
  shown_ticket (some u) c h = h u refl

  module _ (N : Type 0) ⦃n : Numbers N⦄ where
    -- The ticket that waits for its confirmation was prepared for the instrument, the account's epoch,
    -- the side, the type, the quantity and the price that the form shows, whatever was typed, shown or
    -- answered before and in whatever order: where each answer of the server is a ticket for the order
    -- that it was asked about.
    pub run-IsShown :
        (s : OrderTicket T) (es : List (Event T))
        → IsShown s
        → All Answers es
        → IsShown (run N s es)
    run-IsShown s es h a = shown_ticket _ _ (run-Keeps N s es (kept_ticket s.ticket s.context h) a)

OrderType-cases : (t : OrderType) → (t ≡ limit) ⊎ (t ≡ market)
OrderType-cases limit = inl refl
OrderType-cases market = inr refl

asked_arguments :
    {T : Type 0} (N : Type 0) ⦃n : Numbers N⦄ (s : OrderTicket T)
    (arguments : List (String × String))
    → (step N s prepares).1 ≡ prepare arguments ∷ []
    → (refusal N s.context ≡ none) × (arguments ≡ order_arguments s.context)
unfolding step start_prepare
asked_arguments N s arguments h = elim (Option-cases (refusal N s.context)) [
  | inl q ↦ (q, ground (arith, h, q))
  | inr (e, q) ↦ absurd (ground (arith, h, q))
]

-- A request is made only for a positive quantity, and for a limit order at a positive price, which is
-- then among its arguments; a market order is sent without a price.
pub start_prepare-IsValid :
    {T : Type 0} (N : Type 0) ⦃n : Numbers N⦄ (s : OrderTicket T)
    (arguments : List (String × String))
    → (step N s prepares).1 ≡ prepare arguments ∷ []
    → (is_positive N s.context.quantity ≡ true)
      × (get arguments "sz" ≡ some s.context.quantity)
      × (get arguments "instId" ≡ some s.context.instrument)
      × (((s.context.order_type ≡ limit)
            × (is_positive N s.context.price ≡ true)
            × (get arguments "px" ≡ some s.context.price))
          ⊎ ((s.context.order_type ≡ market) × (get arguments "px" ≡ none)))
unfolding refusal order_arguments
start_prepare-IsValid N s arguments h =
    let a = asked_arguments N s arguments h in
    elim (OrderType-cases s.context.order_type) [
      | inl q ↦ (
        ground (arith, a.0, q),
        ap (λ m. get m "sz") a.1,
        ap (λ m. get m "instId") a.1,
        inl (
          q,
          ground (arith, a.0, q),
          ap (λ m. get m "px") a.1 ∙ ap (λ t. get (price_argument t s.context.price) "px") q,
        ),
      )
      | inr q ↦ (
        ground (arith, a.0, q),
        ap (λ m. get m "sz") a.1,
        ap (λ m. get m "instId") a.1,
        inr (q, ap (λ m. get m "px") a.1 ∙ ap (λ t. get (price_argument t s.context.price) "px") q),
      )
    ]
