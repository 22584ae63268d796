-- ===== src/Lib.antt =====
-- The Montlok terminal: the parts of it that are written in TypeScript and carry its logic.
--
-- The console in a browser shows live trading data. A gateway sends it protobuf messages over a
-- WebSocket: snapshots of the current view in Arrow batches, then numbered events of each stream.
-- `TerminalClient` keeps the connection and hands each message to `TerminalStreamStore`, which keeps
-- the working view and publishes it to the pages. Everything else is asked for over HTTP: every request
-- shares one session, polling repeats the reads, and the selection says which group and run they are
-- about. The pages hang in a navigation tree; the workspace keeps a list of open tabs, a layout of
-- panes and a list of watched instruments. An order, or an operation on the run of a strategy, is
-- prepared by the server, which gives a ticket, and carried out when the operator confirms the ticket.
-- The pages that watch a run count and draw what the server reports.
--
-- Stream (packages/sdk-ts/src)
--   Protocol     generated/montlok/v2/terminal.ts: the message types, without their codecs
--   Store        streamStore.ts: the state of `TerminalStreamStore` and its methods but `ingest`
--   Ingest       streamStore.ts: `ingest`, each case of the switch a function
--   Runs         the store in its environment: a list of inputs, in any order
--   Delivery, Order, Sound, SoundRuns, Publish, Transfer, Staging    proofs about the store
--   Client       client.ts: `TerminalClient`, its handlers, and the browser's sockets and timers
--   Connection, Retries    proofs about the client
--   Detail, Inspection    apps/web/src/operator/eventDetailModel.ts: the fields of an event; proofs
-- Workspace (apps/web/src/operator)
--   Menu, Navigation, Destination    navigation.ts
--   Tabs         quantWorkspaceModel.ts
--   Docking      dockingModel.ts: the check of a saved layout; Layouts has its proofs
--   Lookup, Reach, Removal, TabOpening, TabClosing    proofs
-- Console (apps/web/src/operator)
--   Poll, PollRuns    usePoll.ts: one effect of `usePoll`, and its runs
--   Session      api.ts: `ensureSession`; Sessions has its runs
--   Request      api.ts: `request`, as the stages between its awaits; Requests has its runs
--   Replay, Replies    proofs about requests
--   Reads, Sharing     api.ts: `api`, and that equal reads share a request
--   Upload, Uploads    apps/web/src/pages/Artifacts/artifactModel.ts; Uploads has its proofs
--   Observation, Observed    runObservation.ts; Observed has its proofs
-- Selection (apps/web/src/operator)
--   Storage, Validate, Saving    selectionStorage.ts: reading a selection, validating and saving it
--   Verified     proofs
--   Operator     apps/web/src/models/operator.ts: restoring, editing and saving the selection; Restoring
--                and Reload have its proofs
--   Account      apps/web/src/models/operator.ts: the account and its source of events; Source has its
--                proofs
--   Groups       pages/StrategyGroups/groupModel.ts and pages/Portfolio/portfolioModel.ts (in apps/web/src)
-- Watchlist (apps/web/src/operator)
--   Symbols, Lists    watchlistModel.ts: names of instruments; loading, saving, adding, removing
--   Naming, Keeping, Saving    proofs
-- Market (apps/web/src/operator)
--   Buffer       marketBuffer.ts; Refinement compares it with a feed of single values
--   Rows, Hook, Effects    useMarket.ts: access to parsed JSON; what is shown; the effect, as events in
--                the order in which they arrive. Superseded has its proofs
-- Trading (apps/web/src/operator)
--   Confirm, Tickets    ConfirmOperation.tsx: the dialogue; the dialogue with the server. Confirmed has the
--                proofs
--   Order        OrderTicket.tsx: the form of an order; Prepared has its proofs
--   RunControl, RunPanel    StrategyRunPanel.tsx: what is derived of the server's state; the state of the
--                panel with its effects. RunReasons, RunTickets have the proofs
-- Analytics (apps/web/src/pages)
--   Fields, Execution    ExecutionAnalytics/executionModel.ts; Classes, Volume, Statuses have the proofs
--   Allocation   Account/allocationModel.ts; Allocated has the proofs
-- Charts (apps/web/src/operator)
--   Points, Results, Metrics    resultChartModel.ts; Appended, Ordered, Rising have the proofs
--   Indicators   indicators.ts; Averages, AverageTimes, LastAverage have the proofs
-- Prelude        shared tests, lists, integers
-- JsMap          the language's `Map`, as a list of entries in the order of insertion
-- Json           parsed JSON; the parser is an argument
--
-- How code becomes definitions. A method takes the state and returns the new state, the calls that it
-- makes outside and, where it throws, the message. A mutation that happens before an error stays in
-- the returned state. A timer is a flag or a number in a list of pending timers. `uint64` values are
-- natural numbers: they come from the decoder, and no operation here makes one. A listener is a
-- number, and a call of it is recorded; a listener that calls back into the store is not modelled.
--
-- Loops are structural recursion on lists, on texts or on the number of rows left. Only the digits of a
-- number take fuel, one more than the number, which has no more digits than that.
--
-- The numbers of the language are floating point. `Prelude.Numbers` is an interface of their
-- operations, which definitions take as an instance argument and give no meaning; a theorem that needs a
-- law of them names it as a hypothesis, and only laws that floating point has: no number is both less
-- and greater, and whole numbers up to 2^53 are added exactly. Counts, positions and whole seconds are natural numbers. The
-- examples use the natural numbers, with or without NaN. A hook or a page of React is a state machine: a state is
-- what is rendered, an event is an answer, a message, a timer or a click, and the effects that follow a
-- change belong to its step. What the server prepares is an argument.
--
-- Not modelled: the Arrow reader, the protobuf codecs, the JSON parser and the layout library, which are
-- arguments of the definitions; the sizes of the workspace, the prices of the watchlist
-- and the analytics of positions; the views (the markup of the tsx files), the pages that only show
-- records; the parts of the repository in Rust, Python and C++.
pub mod Prelude
pub mod JsMap
pub mod Stream
pub mod Json
pub mod Workspace
pub mod Console
pub mod Watchlist
pub mod Selection
pub mod Market
pub mod Analytics
pub mod Trading
pub mod Charts
