-- ===== src/Worker/Effects.antt =====
-- What cmd/worker calls outside of its own code: the SQL store, the Redis counters, the publisher,
-- the clock and the generators. They are functions over an unknown world, which other services
-- change as well; the model keeps a trace of the calls and of what they returned, newest first.
use clusterprobe.Prelude.{String, Option, List, ◌∷◌}
use clusterprobe.Go.Errors.{GoError, Result, ok, of_error}
use clusterprobe.Go.Action.{Action}
use clusterprobe.Go.Json.{Payload}
use clusterprobe.Workload.Types.{ScenarioResponse, Time}
use clusterprobe.Workload.Params.{WorkloadParams, WorkResult}
use clusterprobe.Go.Int64.{ℤ}

-- The document that `reportResult` writes.
pub record Snapshot : Type 0 where
  pub scenario_id : String
  pub workload : String
  pub ops : ℤ
  pub duration_ms : ℤ
  pub error : String
  pub timestamp : Time

-- The two statements that the worker executes, with their arguments.
pub data Statement : Type 0 where
  insert_scenario : String → Payload ScenarioResponse → Statement
  insert_snapshot : Payload Snapshot → Statement

pub record Env (W : Type 0) : Type 0 where
  pub exec : Statement → W → Option GoError × W
  -- `QueryRow(latestScenarioQuery, id).Scan(&payload)`
  pub query_latest : String → W → Result (Payload ScenarioResponse) × W
  pub incr : String → W → Option GoError × W
  pub publish : String → String → Payload Snapshot → W → Option GoError × W
  pub now : W → Time × W

-- A generator's `Execute`, beside which the stop watcher runs until it returns.
abbrev pub Generator : Type 0 → Type 0
Generator W = WorkloadParams → W → (WorkResult × Option GoError) × W

pub data Event : Type 0 where
  did_exec : Statement → Option GoError → Event
  did_query : String → Result (Payload ScenarioResponse) → Event
  did_incr : String → Option GoError → Event
  did_publish : String → String → Payload Snapshot → Option GoError → Event
  did_run : WorkloadParams → WorkResult → Option GoError → Event
  did_now : Time → Event

pub record State (W : Type 0) : Type 0 where
  pub world : W
  pub trace : List Event

abbrev pub M : Type 0 → Type 0 → Type 0
M W A = Action (State W) A

module _ {W : Type 0} (env : Env W) where
  unfoldable pub exec : Statement → M W (Unit {0})
  exec q s =
      let (e, w) = env.exec q s.world in
      (of_error e, record { world = w; trace = did_exec q e ∷ s.trace })

  unfoldable pub query_latest : String → M W (Payload ScenarioResponse)
  query_latest id s =
      let (r, w) = env.query_latest id s.world in
      (r, record { world = w; trace = did_query id r ∷ s.trace })

  unfoldable pub incr : String → M W (Unit {0})
  incr key s =
      let (e, w) = env.incr key s.world in
      (of_error e, record { world = w; trace = did_incr key e ∷ s.trace })

  unfoldable pub publish : String → String → Payload Snapshot → M W (Unit {0})
  publish exchange key body s =
      let (e, w) = env.publish exchange key body s.world in
      (of_error e, record { world = w; trace = did_publish exchange key body e ∷ s.trace })

  unfoldable pub now : M W Time
  now s = let (t, w) = env.now s.world in (ok t, record { world = w; trace = did_now t ∷ s.trace })

  unfoldable pub run : Generator W → WorkloadParams → M W (WorkResult × Option GoError)
  run gen params s =
      let (out, w) = gen params s.world in
      (ok out, record { world = w; trace = did_run params out.0 out.1 ∷ s.trace })
