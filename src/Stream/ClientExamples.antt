-- ===== src/Stream/ClientExamples.antt =====
-- packages/sdk-ts/src/client.ts: the connection on concrete events.
use montlok_terminal.Prelude.{
  ◌+◌, ◌*◌, ◌≤◌, min, ◌≡◌, refl, suc, false, List, [], ◌∷◌, some, arith, nat_eq, All,
}
use montlok_terminal.Prelude.Int.{pos}
use montlok_terminal.Stream.Protocol.{TerminalContext}
use montlok_terminal.Stream.Store.{err, new_store}
use montlok_terminal.Stream.Client.{
  TerminalClient, set_timeout, Event, started, stops, opened, received, closed, failed, retry_due,
  view_due, ClientCodec, backoff, on_close, new_client, connect,
}
use montlok_terminal.Stream.Connection.{IsSteady, idle, run, run-IsSteady}
use montlok_terminal.Stream.Retries.{is_active, effects, stopped-Silent, on_close-retries}

abbrev context : TerminalContext
context = record {
  account_id = "acc";
  strategy_group_id = "";
  run_id = "";
  instrument_id = "";
  model_release_id = "";
  signal_version = "";
  time_from_ns = pos 0;
  time_to_ns = pos 0;
}

-- A codec that refuses every frame.
abbrev deaf_codec : ClientCodec
deaf_codec = record {
  codec = record { table_from_ipc = λ _. err "no table"; decode = λ _. err "no event" };
  decode_message = λ _. err "no message";
}

abbrev fresh : TerminalClient
fresh = new_client new_store context

-- Started, connected, closed by a bad frame, and waiting to connect again.
abbrev session : List Event
session =
    started context ("*" ∷ [])
    ∷ opened 0 "u"
    ∷ received 0 (some (1 ∷ []))
    ∷ closed 0 20
    ∷ retry_due 1
    ∷ failed 2
    ∷ stops
    ∷ []

run-IsSteady_example : IsSteady (run deaf_codec fresh session)
run-IsSteady_example =
    run-IsSteady deaf_codec fresh session (idle (refl, refl, refl, refl))
      (refl, (tt, (tt, (tt, (tt, (tt, (tt, tt)))))))

abbrev after_stop : List Event
after_stop = closed 0 20 ∷ retry_due 1 ∷ opened 0 "u" ∷ view_due ∷ []

stopped-Silent_example : All (λ f. is_active f ≡ false) (effects deaf_codec fresh after_stop)
stopped-Silent_example =
    stopped-Silent deaf_codec fresh after_stop (refl, refl, refl, refl)
      (refl, (refl, (refl, (refl, tt))))

abbrev running : TerminalClient
running = (connect (record fresh { stopped = false })).0

on_close-retries_example :
    let (c', now) = on_close running 0 150 in
    (now ≡ set_timeout running.next_id (backoff running.retries + 150) ∷ [])
    × (c'.retry ≡ some running.next_id)
    × (c'.retries ≡ suc running.retries)
    × (backoff 0 ≡ 250)
    × (backoff (suc running.retries) ≡ min 10000 (2 * backoff running.retries))
    × (250 ≤ backoff running.retries + 150)
    × (backoff running.retries + 150 ≤ 10199)
unfolding connect
on_close-retries_example = on_close-retries running 0 150 refl refl (omega arith)
