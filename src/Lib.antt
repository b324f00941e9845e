-- ===== src/Lib.antt =====
-- ClusterProbe: a load and chaos testing tool. The HTTP API (cmd/api) takes scenarios, stores each as
-- a row of `scenario_events` and publishes it to RabbitMQ; workers (cmd/worker) consume the messages,
-- run the generator of the workload type, write the status of the scenario as further rows and
-- report the result; a stop is a row with the status "stopped" that the workers look for; the API
-- also drives Chaos Mesh experiments (internal/chaos). The latest row of a scenario is its state.
--
-- The files:
-- - Prelude: names of the libraries, Boolean tests, lists and strings.
-- - Go: what the source uses of Go. Go.Int64 has the 64-bit integers with their wrap-around
--   (`+ℤ`, `-ℤ`, `*ℤ` and the truncating `quot`), Go.Errors the error values with their chain of
--   contexts, Go.Action functions of a state that may fail, Go.Strings trimming and case folding,
--   Go.Text and Go.Numbers what is used of `strings` and `strconv`, Go.Flags the package `flag`,
--   Go.Json documents that decode or not. Encoding fails for times after the year 9999.
-- - Workload (internal/workload): Types has the documents of types.go and their `Validate` methods,
--   Params the parameters and results of execute.go, Split the function `splitMixedDurations` of
--   mixed.go with its local functions named, Mixed `MixedGenerator.Execute`. Clock has the loop until
--   a deadline with its invariant rule, Generators the generators of cpu.go, memory.go, db_write.go
--   and db_read.go. Validation, Split/Shares, Split/Shrink, Split/Exact, Mixed/Filling and, in
--   Generators, Keeping, Counting, Burning and Ending have the proofs.
-- - Retry: the delay that doubles, shared by internal/db and internal/messaging.
-- - Worker (cmd/worker/main.go, cmd/worker/reporting.go): Effects is what the worker calls, as
--   functions over an unknown world with a trace of the calls; Reporting and Handler are
--   `appendScenarioStatus`, `latestScenarioStatus`, `reportResult` and `handleMessage`; Watcher is
--   `watchScenarioStop` on the list of what its `select` receives. Protocol describes the calls of a
--   delivery with their arguments as an automaton, and Protocol/Documents compares these; Conforms, Stops, Books and Poison have the proofs. Startup has
--   `newProducerWithRetry` and `newConsumerWithRetry`, Pool `startConsumers`, Probes
--   `buildHTTPServer`, Wiring the adapters and the environment of the handler, each with its proofs.
-- - Messaging (internal/messaging/rabbitmq.go): Carrier is `amqpHeaderCarrier`, Broker what the code
--   calls of the AMQP library, Topology `DeclareTopology`, Connection `connect`, `reconnect` and
--   `Close`, Consume `Publish` and `Consume`. Topology/Plan, Connection/Handles,
--   Connection/Backoff, Connection/Restoring, Consume/Settlement and Consume/Spans have the proofs.
--   Monitor has the goroutine `monitorReconnect` beside the callers of a client, as moves that
--   interleave, with the proofs in Monitor/Accounts, Monitor/Sequential and Monitor/Reopening.
-- - Api (cmd/api/handlers): Http, of helpers.go, has the reply writer and the early
--   returns of a handler, Scenarios the five handlers of scenarios.go, with their proofs in
--   Scenarios/Creating, Scenarios/Reading and Http/Replies. Experiments has the handlers of
--   cmd/api/handlers/chaos.go, Experiments/Specs and Experiments/Badge the specs and badges that they
--   build; Experiments/Changes, Experiments/Listing and Experiments/Supported have the proofs. Status
--   has the handlers of cmd/api/handlers/status.go, Startup what cmd/api/main.go connects to, Wiring
--   its adapters and the environments of the handlers, Logging the middleware and the log stream.
-- - Chaos (internal/chaos): Types, Phases (`statusFromObjectAt`, `inferPhaseFromObject`) and Client
--   (`Apply`, `Status`, `Delete`, `List`), with the proofs in Phases and Client/Lookup.
-- - Config (internal/config): `Load` and `Validate`, with the proof in Config/Loading.
-- - Db (internal/db): Connect has the retries of the three connections, Schema `InitSchema` and
--   `splitSQLStatements`, Clients the operations of the clients with their spans. Connect/Attempts and
--   Schema/Statements have the proofs.
-- - ChaosCtrl (cmd/chaos-ctrl/main.go): Arguments has `splitCommandArgs` and `parseArgs`, Commands
--   `run` and what it calls, Kubeconfig `kubernetesConfig`; Sides and Parsing have the proofs.
-- - Ui (cmd/ui): Views and Forms are functions of handlers/server.go, Pages how a handler answers,
--   Scenarios and Chaos the handlers of handlers/scenarios.go and handlers/chaos.go, with a proof in
--   Scenarios/Submitting, Client the API client of client.go, Streams `writeSSE` of
--   handlers/dashboard.go and LogStream the log stream of handlers/logs.go, with their proofs.
-- - Telemetry (internal/telemetry/otel.go): `Init`, with `setupPrometheusMetrics` of
--   cmd/worker/main.go, Fanout the log handler; Setup and Fanout have the proofs.
-- - System: the services together. Delivery goes from the API's publication to the worker's handler,
--   Routes from the topology to the consumers, Table from the API's rows to the worker's queries, with
--   its proof in Table/Stopping; Services has the three `main` functions of cmd/api, cmd/worker and
--   cmd/ui, Services/Plans and Services/Orderly their order.
-- - The Tests modules have runs on concrete inputs.
--
-- The interfaces: the records `Env` of Worker.Effects, Worker.Startup, Messaging.Broker, Db.Connect,
-- Api.Scenarios, Api.Experiments, Api.Status, Chaos.Client, ChaosCtrl.Commands, Ui.Pages, Telemetry,
-- System.Services and Workload.Generators, and `Transport` of Ui.Client, are the code outside: every
-- call takes a world and returns an answer and a new world, so another service may change anything
-- between two calls. Worker.Wiring and Api.Wiring fill the environments of the handlers from the
-- adapters, the clients and the libraries below them; System.Table fills them from a table. The worker,
-- the API and the web pages share the documents of Workload.Types.
--
-- Loops: the loops over lists and maps are recursion on lists; the order of a Go map is an argument.
-- `reconnect` and the connections of internal/db count their ten attempts down, those of cmd/worker
-- their thirty. The generators have `rounds_for d` rounds for a duration of d ns, one for each
-- nanosecond and one more, which is enough where every reading of the clock takes 1 ns at least; a run
-- that is out of rounds is `none`. The last loop of `splitMixedDurations` takes 1 ms away in each round,
-- so it has as fuel the excess over the duration and one more. The endless loops of `Consume` and of
-- the stop watcher run over a script of what their `select`s receive; the script may be any list, and
-- where it ends the loop waits. Times and durations are nanoseconds, a time is a number with 0 for
-- Go's zero time.
--
-- In Messaging.Monitor each goroutine is at a program counter with its local variables; a step is one
-- call of the library or one section under the lock, of any goroutine, and there is no fuel; the notice
-- of a closed connection may come at any time. In System.Routes a broker routes by equality of keys,
-- since no binding of the topology has a wildcard; System.Table has the order of the query for the
-- latest row, and its clock is that of the database.
--
-- Not modelled: spans (except in `Consume` and internal/db), log lines, HTTP routing, the
-- libraries for databases, telemetry and Kubernetes, the fixed texts of the web pages, and the rates of
-- their dashboard, which are floating-point numbers.
pub mod Prelude
pub mod Go
pub mod Config
pub mod Retry
pub mod Db
pub mod Workload
pub mod Worker
pub mod Ui
pub mod Messaging
pub mod Api
pub mod Chaos
pub mod ChaosCtrl
pub mod Telemetry
pub mod System
