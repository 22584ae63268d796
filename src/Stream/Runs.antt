-- ===== src/Stream/Runs.antt =====
-- packages/sdk-ts/src/streamStore.ts: the store in its environment. What happens to it is a list of
-- inputs in any order: messages, the view timer, and the two notices of the connection. An error
-- that a message throws ends that message only, as its caller in client.ts catches it.
use montlok_terminal.Prelude.{List, [], ◌∷◌, ◌++◌, if◌then◌else◌}
use montlok_terminal.Stream.Protocol.{ServerMessage}
use montlok_terminal.Stream.Store.{
  TerminalStreamStore, Call, Codec, Outcome, done, fire, on_connecting, on_disconnected,
}
use montlok_terminal.Stream.Ingest.{ingest}

pub data Input : Type 0 where
  received : ServerMessage → Input
  timer : Input
  opening : Input
  closed : Input

-- A timer that is not pending does not fire.
unfoldable pub step : Codec → TerminalStreamStore → Input → Outcome
step codec s (received m) = ingest codec s m
step codec s timer = if s.notify_timer then fire s else done s []
step codec s opening = done (on_connecting s) []
step codec s closed = done (on_disconnected s) []

unfoldable pub run : Codec → TerminalStreamStore → List Input → TerminalStreamStore × List Call
run codec s [] = (s, [])
run codec s (i ∷ is) =
    let o = step codec s i in let (s', calls) = run codec o.store is in (s', o.calls ++ calls)
