-- ===== src/Market/Examples.antt =====
-- apps/web/src/operator/useMarket.ts and marketBuffer.ts: runs on concrete events.
use montlok_terminal.Prelude.{ℕ, ◌≡◌, refl, List, [], ◌∷◌, Option, some, take, string_eq}
use montlok_terminal.Prelude.Naturals.{naturals}
use montlok_terminal.JsMap.{get, set}
use montlok_terminal.Json.{Json, number, string, array, object, field, end, cons, nil}
use montlok_terminal.Market.Buffer.{json}
use montlok_terminal.Market.Refinement.{
  Call, appends, puts, drains, call_page, calls_page, calls_feed, new_page, new_feed, calls-Refines,
}
use montlok_terminal.Market.Effects.{
  Event, changed, arrives, message, flushes, candles, socket_closed, snapshot, candles_failed,
  new_hook, cleaned, step, run,
}
use montlok_terminal.Market.Superseded.{run-superseded}

abbrev calls : List (Call ℕ)
calls =
    puts "ticker" (json (number "1"))
    ∷ appends (number "10" ∷ [])
    ∷ drains
    ∷ puts "ticker" (json (number "2"))
    ∷ appends (number "11" ∷ [])
    ∷ []

calls-Refines_example :
    ((calls_page new_page calls).buffer.trades ≡ take 60 (calls_feed new_feed calls).history)
    × (get (call_page (calls_page new_page calls) drains).row "ticker"
        ≡ (calls_feed new_feed calls).newest "ticker")
calls-Refines_example = calls-Refines calls "ticker" (refl, (refl, (refl, (refl, (refl, tt)))))

-- A message of the channel `tickers`.
abbrev ticker : Json
ticker = object (
    field "payload"
      (object (
        field "arg" (object (field "channel" (string "tickers") end)) (
          field "data"
            (array (cons (object (field "last" (string "5") (field "ts" (string "9") end))) nil))
            end)))
      end)

abbrev events : List Event
events =
    changed "BTC-USDT"
    ∷ arrives 1 (message (some ticker))
    ∷ arrives 1 flushes
    ∷ changed "ETH-USDT"
    ∷ arrives 2 (message (some ticker))
    ∷ []

abbrev late : List Event
late =
    arrives 1 (snapshot [])
    ∷ arrives 1 (candles [])
    ∷ arrives 1 flushes
    ∷ arrives 1 socket_closed
    ∷ arrives 1 (candles_failed "timeout")
    ∷ []

run-superseded_example :
    (run (run (new_hook {N = Option ℕ}) events) late).shown
    ≡ (run (new_hook {N = Option ℕ}) events).shown
unfolding run step set cleaned
run-superseded_example =
    run-superseded {N = Option ℕ} events late (refl, (refl, (refl, (refl, (refl, tt)))))
