-- ===== src/Worker/Wiring.antt =====
-- The adapters of cmd/worker/main.go between the handler and the clients of internal/db and
-- internal/messaging, and the environment of the handler that they make. The calls of the libraries
-- are parameters.
mod Tests
use clusterprobe.Prelude.{
  ℕ, String, Bool, true, false, Option, none, some, List, [], ◌∷◌, ◌≡◌, refl, arith,
}
use clusterprobe.Go.Int64.{ℤ}
use clusterprobe.Go.Errors.{GoError, Result, ok, err, wrapped, as_unrecoverable, of_error}
use clusterprobe.Go.Action.{within}
use clusterprobe.Go.Json.{Payload}
use clusterprobe.Workload.Types.{ScenarioResponse, Time}
use clusterprobe.Db.Clients.{
  Traced, Driver, postgres_exec, postgres_query, postgres_query_row, redis_get, redis_incr, Span,
}
use clusterprobe.Messaging.Broker
use clusterprobe.Messaging.Broker.{Outside}
use clusterprobe.Messaging.Carrier.{Table}
use clusterprobe.Messaging.Connection.{Link}
use clusterprobe.Messaging.Consume.{publish_message}
use clusterprobe.Worker.Effects.{Env, State, Statement, Snapshot, insert_scenario, insert_snapshot}
use clusterprobe.Worker.Handler.{Generators, handle_message}
use clusterprobe.Worker.Poison.{
  is_for_good, is_poison, handle_message-is_for_good, IsPlain, is_plain_error, is_plain_result,
}

-- An error that a method returns, if any.
abbrev pub failure : {A : Type 0} → String → Result A → Option GoError
failure label (ok a) = none
failure label (err e) = some (wrapped label e)

abbrev pub relabelled : {A : Type 0} → String → Result A → Result A
relabelled label (ok a) = ok a
relabelled label (err e) = err (wrapped label e)

-- `rowsAdapter`

unfoldable pub rows_err : Option GoError → Option GoError
rows_err none = none
rows_err (some e) = some (wrapped "rows err" e)

unfoldable pub rows_scan : Option GoError → Option GoError
rows_scan none = none
rows_scan (some e) = some (wrapped "rows scan" e)

module _ {W : Type 0} {A : Type 0} where
  -- `postgresAdapter`

  unfoldable pub postgres_adapter_exec :
      (sql : String) → Driver W A → Traced W → Option GoError × Traced W
  postgres_adapter_exec sql call s =
      let (r, s') = postgres_exec sql call s in (failure "postgres exec" r, s')

  unfoldable pub postgres_adapter_query :
      (sql : String) → Driver W A → Traced W → Result A × Traced W
  postgres_adapter_query sql call s =
      let (r, s') = postgres_query sql call s in (relabelled "postgres query" r, s')

  unfoldable pub postgres_adapter_query_row :
      (sql : String) → Driver W A → Traced W → Result A × Traced W
  postgres_adapter_query_row sql = postgres_query_row sql

  -- `redisAdapter`

  unfoldable pub redis_adapter_get : Driver W A → Traced W → Result A × Traced W
  redis_adapter_get call s = let (r, s') = redis_get call s in (relabelled "redis get" r, s')

  unfoldable pub redis_adapter_incr : Driver W A → Traced W → Option GoError × Traced W
  redis_adapter_incr call s = let (r, s') = redis_incr call s in (failure "redis incr" r, s')

-- The calls of the libraries, without the results that the source drops.
pub record Drivers (V : Type 0) : Type 0 where
  pub pool_exec : Statement → V → Result (Unit {0}) × V
  -- with the scan of its row
  pub pool_query_row : String → V → Result (Payload ScenarioResponse) × V
  pub redis_incr : String → V → Result ℤ × V
  pub broker : Broker.Env V
  -- the propagator, on the headers of a message
  pub inject : Table → Table
  pub encoded : Payload Snapshot → String
  pub clock : V → Time × V

-- The world with the spans of the clients, the producer's link and the calls of its library.
pub record Wired (V : Type 0) : Type 0 where
  pub world : V
  pub spans : List Span
  pub link : Link
  pub calls : List Broker.Event

-- The constants of reporting.go.
abbrev pub sql_of : Statement → String
sql_of (insert_scenario id payload) =
    "INSERT INTO scenario_events (scenario_id, payload) VALUES ($1, $2)"
sql_of (insert_snapshot payload) = "INSERT INTO metrics_snapshots (snapshot) VALUES ($1)"

abbrev pub latest_scenario_query : String
latest_scenario_query =
    "SELECT payload FROM scenario_events WHERE scenario_id=$1 ORDER BY created_at DESC, id DESC LIMIT 1"

abbrev pub error_of : Result (Unit {0}) → Option GoError
error_of (ok u) = none
error_of (err e) = some e

module _ {V : Type 0} where
  abbrev pub stored : {B : Type 0} → (Traced V → B × Traced V) → Wired V → B × Wired V
  stored call s =
      let (b, t) = call (record { world = s.world; spans = s.spans }) in
      (b, record s { world = t.world; spans = t.spans })

  abbrev pub sent : (Outside V → Result (Unit {0}) × Outside V) → Wired V → Option GoError × Wired V
  sent call s =
      let (r, t) = call (record { world = s.world; trace = s.calls }) in
      (error_of r, record s { world = t.world; calls = t.trace })

-- The arguments that `main` gives `handleMessage`.
unfoldable pub wire : {V : Type 0} → Drivers V → Env (Wired V)
wire drivers = record {
  exec = λ q s. stored (postgres_adapter_exec (sql_of q) (drivers.pool_exec q)) s;
  query_latest = λ id s.
      stored (postgres_adapter_query_row latest_scenario_query (drivers.pool_query_row id)) s;
  incr = λ key s. stored (redis_adapter_incr (drivers.redis_incr key)) s;
  publish = λ exchange key body s.
      sent
        (publish_message drivers.broker drivers.inject s.link exchange key (drivers.encoded body))
        s;
  now = λ s. let (t, w) = drivers.clock s.world in (t, record s { world = w });
}

-- The libraries know no `UnrecoverableError`.
pub record IsForeign {V : Type 0} (drivers : Drivers V) : Type 0 where
  pub foreign_exec : (q : Statement) (v : V) → is_plain_result (drivers.pool_exec q v).0 ≡ true
  pub foreign_query : (id : String) (v : V) → is_plain_result (drivers.pool_query_row id v).0 ≡ true
  pub foreign_incr : (key : String) (v : V) → is_plain_result (drivers.redis_incr key v).0 ≡ true
  pub foreign_publish :
      (ch : Broker.Handle) (exchange key : String) (m : Broker.Publishing) (v : V)
      → is_plain_error (drivers.broker.publish ch exchange key m v).0 ≡ true

sent_plain :
    {S : Type 0} (e : Option GoError) (s : S)
    → is_plain_error e ≡ true
    → is_plain_error (error_of (within {S = S} "rabbitmq publish" (λ t. (of_error e, t)) s).0)
      ≡ true
unfolding as_unrecoverable
sent_plain none s h = refl
sent_plain (some e) s h = h

published_plain :
    {V : Type 0} (drivers : Drivers V) (foreign : IsForeign drivers)
    (conn ch : Option Broker.Handle) (exchange key body : String) (s : Outside V)
    → is_plain_error (
        error_of
          (publish_message drivers.broker drivers.inject
            (record { conn = conn; channel = ch })
            exchange
            key
            body
            s).0)
      ≡ true
unfolding publish_message Broker.publish as_unrecoverable
published_plain drivers foreign conn none exchange key body s = refl
published_plain drivers foreign conn (some ch) exchange key body s =
    let m : Broker.Publishing = record {
      content_type = "application/json";
      headers = drivers.inject [];
      persistent = true;
      body = body;
    } in
    sent_plain (drivers.broker.publish ch exchange key m s.world).0
      (Broker.publish drivers.broker ch exchange key m s).1
      (foreign.foreign_publish ch exchange key m s.world)

pub wire-IsPlain : {V : Type 0} (drivers : Drivers V) → IsForeign drivers → IsPlain (wire drivers)
unfolding wire postgres_adapter_exec postgres_adapter_query_row redis_adapter_incr postgres_exec
    postgres_query_row redis_incr as_unrecoverable
wire-IsPlain drivers foreign = record {
  plain_exec = λ q s. ground (arith, foreign.foreign_exec q s.world);
  plain_query = λ id s. foreign.foreign_query id s.world;
  plain_incr = λ key s. ground (arith, foreign.foreign_incr key s.world);
  plain_publish = λ exchange key body s.
      published_plain drivers foreign s.link.conn s.link.channel exchange key (drivers.encoded body)
        _;
}

-- The environment that the worker's `main` puts together from its adapters and clients returns no
-- `UnrecoverableError`, whatever the producer's link is, if the libraries below them do not: so with
-- it a delivery is refused as unrecoverable exactly if it does not decode or no generator runs its
-- workload type.
pub wire-is_for_good :
    {V : Type 0} (drivers : Drivers V) (gens : Generators (Wired V))
    (body : Payload ScenarioResponse) (s : State (Wired V))
    → IsForeign drivers
    → is_for_good (handle_message (wire drivers) gens body s).0 ≡ is_poison gens body
wire-is_for_good drivers gens body s foreign =
    handle_message-is_for_good (wire drivers) gens body s (wire-IsPlain drivers foreign)
