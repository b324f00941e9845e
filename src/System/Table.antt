-- ===== src/System/Table.antt =====
-- The table `scenario_events` of internal/db/schema/postgres.sql between the API, which stops
-- scenarios, and the workers, which ask for the latest status: the two statements of
-- cmd/api/handlers/scenarios.go and cmd/worker/reporting.go over it.
pub mod Stopping
mod Tests
use clusterprobe.Prelude.{
  ℕ, ◌+◌, ◌≤◌, ◌<◌, ◌≡◌, refl, arith, String, Bool, true, ◌||◌, ◌&&◌, ltb, ◌==◌, Option, none, some,
  List, [], ◌∷◌, str_eq, if◌then◌else◌, Each,
}
use clusterprobe.Go.Errors.{GoError, Result, ok, err, msg}
use clusterprobe.Go.Json.{Payload}
use clusterprobe.Workload.Types.{ScenarioResponse, Time}
use clusterprobe.Api.Scenarios.{RowSet}
use clusterprobe.Api.Scenarios
use clusterprobe.Worker.Effects.{Snapshot, insert_scenario, insert_snapshot}
use clusterprobe.Worker.Effects

-- A row: `id` counts the inserts, `created_at` is `NOW()`.
pub record Entry : Type 0 where
  pub serial : ℕ
  pub scenario_id : String
  pub payload : Payload ScenarioResponse
  pub created_at : Time

-- The rows, the id of the next one and the clock of the database.
pub record Table : Type 0 where
  pub entries : List Entry
  pub next_serial : ℕ
  pub clock : Time

unfoldable pub insert : String → Payload ScenarioResponse → Table → Table
insert id p t = record t {
  entries =
      record { serial = t.next_serial; scenario_id = id; payload = p; created_at = t.clock }
      ∷ t.entries;
  next_serial = t.next_serial + 1;
}

-- Whether `a` comes before `b` in `ORDER BY created_at DESC, id DESC`.
abbrev pub is_before : Entry → Entry → Bool
is_before a b =
    ltb b.created_at a.created_at || (b.created_at == a.created_at && ltb b.serial a.serial)

abbrev pub first_of : Entry → Option Entry → Entry
first_of e none = e
first_of e (some f) = if is_before e f then e else f

-- `WHERE scenario_id=$1 ORDER BY created_at DESC, id DESC LIMIT 1`
unfoldable pub latest : String → List Entry → Option Entry
latest id [] = none
latest id (e ∷ es) =
    let rest = latest id es in if str_eq e.scenario_id id then some (first_of e rest) else rest

-- The ids are below the next one, and no row is of the future.
pub record IsRow (t : Table) (e : Entry) : Type 0 where
  pub numbered : e.serial < t.next_serial
  pub past : e.created_at ≤ t.clock

abbrev pub IsTable : Table → Type 0
IsTable t = Each (IsRow t) t.entries

-- What the handlers call beside the table: it may answer as it likes, and does not change the table.
pub record Others : Type 0 where
  pub listing : Table → Result RowSet
  pub events : String → Table → Result RowSet
  pub publish_scenario : (exchange key : String) → Payload ScenarioResponse → Option GoError
  pub publish_result : (exchange key : String) → Payload Snapshot → Option GoError
  pub insert_result : Payload Snapshot → Option GoError
  pub increment : String → Option GoError
  pub now : Table → Time
  pub new_id : Table → String

abbrev pub row_of : Option Entry → Result Scenarios.Row
row_of none = err (msg "no rows in result set")
row_of (some e) =
    ok (record { scenario_id = e.scenario_id; payload = e.payload; created = e.created_at })

abbrev pub payload_of : Option Entry → Result (Payload ScenarioResponse)
payload_of none = err (msg "no rows in result set")
payload_of (some e) = ok e.payload

unfoldable pub api_env : Others → Scenarios.Env Table
api_env others = record {
  insert = λ id p t. (none, insert id p t);
  list_latest = λ t. (others.listing t, t);
  latest = λ id t. (row_of (latest id t.entries), t);
  events = λ id t. (others.events id t, t);
  publish = λ exchange key p t. (others.publish_scenario exchange key p, t);
  now = λ t. (others.now t, t);
  new_id = λ t. (others.new_id t, t);
}

abbrev executed : Others → Effects.Statement → Table → Option GoError × Table
executed others (insert_scenario id p) t = (none, insert id p t)
executed others (insert_snapshot p) t = (others.insert_result p, t)

unfoldable pub worker_env : Others → Effects.Env Table
worker_env others = record {
  exec = λ q t. executed others q t;
  query_latest = λ id t. (payload_of (latest id t.entries), t);
  incr = λ key t. (others.increment key, t);
  publish = λ exchange key p t. (others.publish_result exchange key p, t);
  now = λ t. (others.now t, t);
}
