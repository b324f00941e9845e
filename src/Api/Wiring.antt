-- ===== src/Api/Wiring.antt =====
-- The adapters of cmd/api/main.go between the handlers and the clients of internal/db and
-- internal/messaging, and the environment of the scenario handlers that `buildRouter` makes.
pub mod Documents
mod Tests
use clusterprobe.Prelude.{ℕ, String, none, some, Option, List, [], ◌∷◌, map, ◌≢◌, refl}
use clusterprobe.Go.Errors.{GoError, Result, ok, err, wrapped}
use clusterprobe.Go.Action.{within}
use clusterprobe.Go.Json.{Payload}
use clusterprobe.Workload.Types.{ScenarioResponse, Time}
use clusterprobe.Db.Clients.{
  Traced, Driver, postgres_exec, postgres_query, postgres_query_row, redis_get, mongo_insert_one,
  mongo_find, mongo_update_one, mongo_delete_one, Span,
}
use clusterprobe.Messaging.Broker
use clusterprobe.Messaging.Carrier.{Table}
use clusterprobe.Messaging.Consume.{publish_message}
use clusterprobe.Worker.Wiring.{Wired, failure, relabelled, stored, sent}
use clusterprobe.Api.Scenarios.{Env, Row, RowSet}

-- `rowsAdapter`

unfoldable pub rows_err : Option GoError → Option GoError
rows_err none = none
rows_err (some e) = some (wrapped "rows err" e)

unfoldable pub rows_scan : {A : Type 0} → Result A → Result A
rows_scan r = relabelled "rows scan" r

module _ {W : Type 0} {A : Type 0} where
  -- `postgresAdapter` and `redisAdapter`

  unfoldable pub postgres_adapter_exec :
      (sql : String) → Driver W A → Traced W → Option GoError × Traced W
  postgres_adapter_exec sql call s =
      let (r, s') = postgres_exec sql call s in (failure "postgres exec" r, s')

  unfoldable pub postgres_adapter_query :
      (sql : String) → Driver W A → Traced W → Result A × Traced W
  postgres_adapter_query sql call s =
      let (r, s') = postgres_query sql call s in (relabelled "postgres query" r, s')

  unfoldable pub postgres_adapter_query_row :
      (sql : String) → Driver W A → Traced W → Result A × Traced W
  postgres_adapter_query_row sql = postgres_query_row sql

  unfoldable pub redis_adapter_get : Driver W A → Traced W → Result A × Traced W
  redis_adapter_get call s = let (r, s') = redis_get call s in (relabelled "redis get" r, s')

-- The calls of the libraries, without the results that the source drops.
pub record Drivers (V : Type 0) : Type 0 where
  pub pool_exec : (sql id : String) → Payload ScenarioResponse → V → Result (Unit {0}) × V
  pub pool_query : (sql : String) → (arguments : List String) → V → Result RowSet × V
  -- with the scan of its row
  pub pool_query_row : (sql id : String) → V → Result Row × V
  pub broker : Broker.Env V
  -- the propagator, on the headers of a message
  pub inject : Table → Table
  pub encoded : Payload ScenarioResponse → String
  pub clock : V → Time × V
  pub uuid : V → String × V

-- The constants of handlers/scenarios.go.

abbrev pub insert_scenario_query : String
insert_scenario_query = "INSERT INTO scenario_events (scenario_id, payload) VALUES ($1, $2)"

abbrev pub list_scenario_query : String
list_scenario_query =
    "SELECT scenario_id, payload, created_at FROM (SELECT DISTINCT ON (scenario_id) scenario_id, payload, created_at, id FROM scenario_events ORDER BY scenario_id, created_at DESC, id DESC) latest ORDER BY created_at DESC LIMIT 50"

abbrev pub get_scenario_query : String
get_scenario_query =
    "SELECT scenario_id, payload, created_at FROM scenario_events WHERE scenario_id=$1 ORDER BY created_at DESC, id DESC LIMIT 1"

abbrev pub list_scenario_events_query : String
list_scenario_events_query =
    "SELECT scenario_id, payload, created_at FROM scenario_events WHERE scenario_id=$1 ORDER BY created_at ASC, id ASC"

abbrev adapted : Result RowSet → Result RowSet
adapted (ok set) = ok (record { rows = map rows_scan set.rows; after = rows_err set.after })
adapted (err e) = err e

abbrev rows_of : {V : Type 0} → (sql : String) → Driver V RowSet → Wired V → Result RowSet × Wired V
rows_of sql call s = let (r, s') = stored (postgres_adapter_query sql call) s in (adapted r, s')

-- The store and the publisher that `buildRouter` gives the scenario handlers.
unfoldable pub wire : {V : Type 0} → Drivers V → Env (Wired V)
wire drivers = record {
  insert = λ id p s.
      stored
        (postgres_adapter_exec insert_scenario_query (drivers.pool_exec insert_scenario_query id p))
        s;
  list_latest = λ s. rows_of list_scenario_query (drivers.pool_query list_scenario_query []) s;
  latest = λ id s.
      stored
        (postgres_adapter_query_row get_scenario_query
          (drivers.pool_query_row get_scenario_query id))
        s;
  events = λ id s.
      rows_of list_scenario_events_query (drivers.pool_query list_scenario_events_query (id ∷ []))
        s;
  publish = λ exchange key p s.
      sent (publish_message drivers.broker drivers.inject s.link exchange key (drivers.encoded p))
        s;
  now = λ s. let (t, w) = drivers.clock s.world in (t, record s { world = w });
  new_id = λ s. let (id, w) = drivers.uuid s.world in (id, record s { world = w });
}
