-- ===== src/Trading/Examples.antt =====
-- apps/web/src/operator: preparing and confirming on concrete events.
use montlok_terminal.Prelude.{
  ℕ, ◌≡◌, refl, true, false, List, [], ◌∷◌, Option, none, some, string_eq,
}
use montlok_terminal.Prelude.{◌⊎◌}
use montlok_terminal.Prelude.Int.{pos}
use montlok_terminal.Prelude.Naturals.{naturals}
use montlok_terminal.JsMap.{get}
use montlok_terminal.Trading.Order
use montlok_terminal.Trading.Order.{
  Context, buy, limit, market, OrderTicket, is_positive, order_arguments, refusal, start_prepare,
  run, step as step_order, sets_quantity, prepares, prepared,
}
use montlok_terminal.Trading.Prepared.{IsShown, run-IsShown, start_prepare-IsValid}
use montlok_terminal.Trading.Confirm.{
  Ticket, Confirm, new_confirm, Event, renders, shows, confirms, succeeds, fails,
}
use montlok_terminal.Trading.Tickets.{log, is_once}
use montlok_terminal.Trading.Confirmed.{new_world, run-IsOnce}

abbrev ticket : Ticket
ticket = record { id = "t1"; expires_at = some 5000; starts_group = true }

abbrev events : List Event
events =
    renders (some ticket)
    ∷ shows 1000
    ∷ confirms 1500
    ∷ confirms 1501
    ∷ fails ticket "timeout"
    ∷ renders (some ticket)
    ∷ confirms 2000
    ∷ succeeds ticket
    ∷ renders (some ticket)
    ∷ confirms 2500
    ∷ []

run-IsOnce_example : is_once none [] (log new_world events) ≡ true
run-IsOnce_example = run-IsOnce events

abbrev shown : Confirm
shown = record new_confirm { rendered = some ticket }

abbrev context : Context
context = record {
  instrument = "BTC-USDT";
  epoch = pos 1;
  side = buy;
  order_type = limit;
  quantity = "2";
  price = "100";
}

abbrev form : OrderTicket Context
form = record { context = context; ticket = none; result = none; error = ""; busy = false }

-- The tickets of this server are the orders that it was asked for.
abbrev form_events : List (Order.Event Context)
form_events =
    sets_quantity "3"
    ∷ prepares
    ∷ prepared context context
    ∷ prepared (record context { quantity = "3" }) (record context { quantity = "3" })
    ∷ []

run-IsShown_example : IsShown (λ c. c) (run (Option ℕ) form form_events)
run-IsShown_example =
    run-IsShown (λ c. c) (Option ℕ) form form_events tt (tt, (tt, (refl, (refl, tt))))

start_prepare-IsValid_example :
    (is_positive (Option ℕ) form.context.quantity ≡ true)
    × (get (order_arguments context) "sz" ≡ some form.context.quantity)
    × (get (order_arguments context) "instId" ≡ some form.context.instrument)
    × (((form.context.order_type ≡ limit)
          × (is_positive (Option ℕ) form.context.price ≡ true)
          × (get (order_arguments context) "px" ≡ some form.context.price))
        ⊎ ((form.context.order_type ≡ market) × (get (order_arguments context) "px" ≡ none)))
unfolding step_order start_prepare refusal
start_prepare-IsValid_example = start_prepare-IsValid (Option ℕ) form (order_arguments context) refl
