-- ===== src/System/Services/Plans.antt =====
-- What each service of cmd/ sets up and does, as a list of tasks, and what it is to follow that list.
use clusterprobe.Prelude.{String, Option, none, some, List, [], ◌∷◌, ◌++◌, ◌≡◌}
use clusterprobe.Go.Errors.{GoError, Result}
use clusterprobe.Config.{Config}
use clusterprobe.Api.Startup.{mongo_database_from_uri}
use clusterprobe.System.Services.{
  Call, Deferred, Event, Ending, load_config, init_telemetry, setup_metrics, new_postgres,
  init_schema, new_redis, new_mongo, new_producer, declare_topology, new_chaos_client,
  parse_templates, static_assets, stop_signals, close, cancel_shutdown, did, did_listen,
  did_start_consumers, did_shutdown, did_join_consumers, did_run, exited, returned, worker_count,
}

-- A call of the set-up: one whose result is closed at the end, or one that leaves nothing to close.
pub data Task : Type 0 where
  opens : Call → Task
  does : Call → Task

abbrev pub call_of : Task → Call
call_of (opens c) = c
call_of (does c) = c

-- The events of the tasks, all successful, on top of `trace`.
abbrev pub done : List Task → List Event → List Event
done [] trace = trace
done (t ∷ ts) trace = done ts (did (call_of t) none ∷ trace)

-- The deferred calls of the tasks, on top of `ds`.
abbrev pub put : List Task → List Deferred → List Deferred
put [] ds = ds
put (opens c ∷ ts) ds = put ts (close c ∷ ds)
put (does c ∷ ts) ds = put ts ds

-- The events of deferred calls, the first one's first.
abbrev pub ran : List Deferred → List Event → List Event
ran [] trace = trace
ran (d ∷ ds) trace = ran ds (did_run d ∷ trace)

-- How a `main` with the tasks `plan` ends, with its trace, newest first: without a configuration; at
-- the first task that fails, with the tasks before it done and nothing closed; or after its service,
-- with all tasks done before it, and what they opened closed after it, the latest first.
pub data IsOrderly (plan : Config → List Task) (service : Config → List Event → Type 0)
    : Ending → List Event → Type 0 where
  unconfigured : (e : GoError) → IsOrderly plan service (exited 1 e) (did load_config (some e) ∷ [])
  failed :
      (cfg : Config) (before : List Task) (t : Task) (after : List Task) (e : GoError)
      → plan cfg ≡ before ++ t ∷ after
      → IsOrderly plan service
          (exited 1 e)
          (did (call_of t) (some e) ∷ done before (did load_config none ∷ []))
  served :
      (cfg : Config) (during : List Event)
      → service cfg during
      → IsOrderly plan service returned (
          ran
            (cancel_shutdown ∷ put (plan cfg) (stop_signals ∷ []))
            (during ++ done (plan cfg) (did load_config none ∷ [])))

abbrev pub api_plan : (path_of : String → Result String) → Config → List Task
api_plan path_of cfg =
    opens (init_telemetry cfg.otlp_endpoint "clusterprobe-api")
    ∷ opens (new_postgres cfg.postgres_dsn 10)
    ∷ does init_schema
    ∷ opens (new_redis cfg.redis_dsn)
    ∷ opens (new_mongo cfg.mongo_dsn (mongo_database_from_uri path_of cfg.mongo_dsn))
    ∷ opens (new_producer cfg.rabbitmq_url)
    ∷ does declare_topology
    ∷ does new_chaos_client
    ∷ []

abbrev pub worker_plan : Config → List Task
worker_plan cfg =
    opens (init_telemetry cfg.otlp_endpoint "clusterprobe-worker")
    ∷ opens (setup_metrics cfg.otlp_endpoint)
    ∷ opens (new_postgres cfg.postgres_dsn 10)
    ∷ does init_schema
    ∷ opens (new_redis cfg.redis_dsn)
    ∷ opens (new_producer cfg.rabbitmq_url)
    ∷ does declare_topology
    ∷ []

abbrev pub ui_plan : Config → List Task
ui_plan cfg =
    opens (init_telemetry cfg.otlp_endpoint "clusterprobe-ui")
    ∷ opens (new_redis cfg.redis_dsn)
    ∷ does parse_templates
    ∷ does static_assets
    ∷ []

-- The events of a server between its start and the end of its shutdown, newest first.
abbrev pub Serves : (Config → String) → Config → List Event → Type 0
Serves addr cfg during =
    (e : Option GoError) × (during ≡ did_shutdown e ∷ did_listen (addr cfg) ∷ [])

-- The worker's server and consumers.
abbrev pub Works : Config → List Event → Type 0
Works cfg during =
    (e f : Option GoError) × (during
      ≡ did_join_consumers f
        ∷ did_shutdown e
        ∷ did_start_consumers (worker_count cfg)
        ∷ did_listen cfg.chaos_listen_addr
        ∷ [])
