-- ===== src/System/Services.antt =====
-- The `main` functions of cmd/api, cmd/worker and cmd/ui: what they set up, in which order, and how
-- they end. The calls of the clients' packages and what other goroutines do to the world are an
-- interface, since the clients are modelled in modules of their own.
pub mod Plans
pub mod Orderly
mod Tests
use clusterprobe.Prelude.{ℕ, String, Option, none, some, List, [], ◌∷◌, if◌then◌else◌}
use clusterprobe.Go.Int64.{ℤ, pos, leb_ℤ}
use clusterprobe.Go.Errors.{GoError, Result, ok, err, of_error}
use clusterprobe.Go.Action.{Action, ◌>>=◌, ◌>>◌}
use clusterprobe.Config.{Config}
use clusterprobe.Api.Startup.{mongo_database_from_uri}

-- The calls after whose errors a `main` logs and calls `os.Exit(1)`.
pub data Call : Type 0 where
  load_config : Call
  init_telemetry : (endpoint service : String) → Call
  setup_metrics : (endpoint : String) → Call
  new_postgres : (dsn : String) → (max_conns : ℕ) → Call
  init_schema : Call
  new_redis : (dsn : String) → Call
  new_mongo : (dsn database : String) → Call
  new_producer : (url : String) → Call
  declare_topology : Call
  new_chaos_client : Call
  parse_templates : Call
  static_assets : Call

-- What a `defer` statement puts off: `stop`, the closing of what a call has made, and `cancel`.
pub data Deferred : Type 0 where
  stop_signals : Deferred
  close : Call → Deferred
  cancel_shutdown : Deferred

-- What a `main` does, in its own goroutine.
pub data Event : Type 0 where
  did : Call → Option GoError → Event
  did_listen : (addr : String) → Event
  did_start_consumers : (count : ℤ) → Event
  did_shutdown : Option GoError → Event
  did_join_consumers : Option GoError → Event
  did_run : Deferred → Event

pub record Env (W : Type 0) : Type 0 where
  pub load : W → Result Config × W
  pub call : Call → W → Option GoError × W
  -- what the other goroutines do until the context is done
  pub until_done : W → W
  pub shutdown : W → Option GoError × W
  -- `<-consumerErrCh`
  pub join_consumers : W → Option GoError × W
  pub run : Deferred → W → W

-- The deferred calls stand with the latest first, and so do the events.
pub record State (W : Type 0) : Type 0 where
  pub world : W
  pub deferred : List Deferred
  pub trace : List Event

-- How a process ends: by `os.Exit` with a code, after an error was logged, or by the end of `main`.
pub data Ending : Type 0 where
  exited : (code : ℕ) → GoError → Ending
  returned : Ending

abbrev pub started : {W : Type 0} → W → State W
started w = record { world = w; deferred = stop_signals ∷ []; trace = [] }

unfoldable pub worker_count : Config → ℤ
worker_count cfg = if leb_ℤ cfg.worker_concurrency (pos 0) then pos 10 else cfg.worker_concurrency

module _ {W : Type 0} (env : Env W) where
  abbrev pub loaded : Result Config × W → State W → Result Config × State W
  loaded (ok c, w) s = (ok c, record s { world = w; trace = did load_config none ∷ s.trace })
  loaded (err e, w) s = (err e, record s { world = w; trace = did load_config (some e) ∷ s.trace })

  unfoldable pub load : Action (State W) Config
  load s = loaded (env.load s.world) s

  abbrev pub attempted : Call → Option GoError × W → Action (State W) (Unit {0})
  attempted c (none, w) s = (ok tt, record s { world = w; trace = did c none ∷ s.trace })
  attempted c (some e, w) s = (err e, record s { world = w; trace = did c (some e) ∷ s.trace })

  unfoldable pub attempt : Call → Action (State W) (Unit {0})
  attempt c s = attempted c (env.call c s.world) s

  abbrev put_off : Deferred → Action (State W) (Unit {0})
  put_off d s = (ok tt, record s { deferred = d ∷ s.deferred })

  -- A call whose result is closed by a deferred call.
  abbrev pub acquired : Call → Option GoError × W → Action (State W) (Unit {0})
  acquired c x = do attempted c x; put_off (close c)

  unfoldable pub acquire : Call → Action (State W) (Unit {0})
  acquire c s = acquired c (env.call c s.world) s

  abbrev note : Event → W → State W → Result (Unit {0}) × State W
  note e w s = (ok tt, record s { world = w; trace = e ∷ s.trace })

  abbrev listen : String → Action (State W) (Unit {0})
  listen addr s = note (did_listen addr) s.world s

  abbrev wait : Action (State W) (Unit {0})
  wait s = (ok tt, record s { world = env.until_done s.world })

  abbrev shutdown : Action (State W) (Unit {0})
  shutdown s = let (e, w) = env.shutdown s.world in note (did_shutdown e) w s

  abbrev join_consumers : Action (State W) (Unit {0})
  join_consumers s = let (e, w) = env.join_consumers s.world in note (did_join_consumers e) w s

  -- From the start of the server's goroutine to the end of `Shutdown`, in cmd/api and cmd/ui.
  unfoldable pub serve : String → Action (State W) (Unit {0})
  serve addr = do listen addr; wait; put_off cancel_shutdown; shutdown

  unfoldable pub run_deferred : List Deferred → W → List Event → State W
  run_deferred [] w trace = record { world = w; deferred = []; trace = trace }
  run_deferred (d ∷ ds) w trace = run_deferred ds (env.run d w) (did_run d ∷ trace)

  -- `os.Exit` runs no deferred call.
  unfoldable pub ended : Result (Unit {0}) × State W → Ending × State W
  unfolding run_deferred
  ended (err e, s) = (exited 1 e, s)
  ended (ok u, s) = (returned, run_deferred s.deferred s.world s.trace)

  -- `path_of` gives the path of a URL.
  unfoldable pub api_body : (path_of : String → Result String) → Action (State W) (Unit {0})
  api_body path_of = do
    cfg ← load
    acquire (init_telemetry cfg.otlp_endpoint "clusterprobe-api")
    acquire (new_postgres cfg.postgres_dsn 10)
    attempt init_schema
    acquire (new_redis cfg.redis_dsn)
    acquire (new_mongo cfg.mongo_dsn (mongo_database_from_uri path_of cfg.mongo_dsn))
    acquire (new_producer cfg.rabbitmq_url)
    attempt declare_topology
    attempt new_chaos_client
    serve cfg.api_listen_addr

  abbrev start_consumers : ℤ → Action (State W) (Unit {0})
  start_consumers n s = note (did_start_consumers n) s.world s

  -- The same in cmd/worker, with its consumers.
  unfoldable pub work : Config → Action (State W) (Unit {0})
  work cfg = do
    listen cfg.chaos_listen_addr
    start_consumers (worker_count cfg)
    wait
    put_off cancel_shutdown
    shutdown
    join_consumers

  unfoldable pub worker_body : Action (State W) (Unit {0})
  worker_body = do
    cfg ← load
    acquire (init_telemetry cfg.otlp_endpoint "clusterprobe-worker")
    acquire (setup_metrics cfg.otlp_endpoint)
    acquire (new_postgres cfg.postgres_dsn 10)
    attempt init_schema
    acquire (new_redis cfg.redis_dsn)
    acquire (new_producer cfg.rabbitmq_url)
    attempt declare_topology
    work cfg

  unfoldable pub ui_body : Action (State W) (Unit {0})
  ui_body = do
    cfg ← load
    acquire (init_telemetry cfg.otlp_endpoint "clusterprobe-ui")
    acquire (new_redis cfg.redis_dsn)
    attempt parse_templates
    attempt static_assets
    serve cfg.ui_listen_addr

  unfoldable pub api_main : (path_of : String → Result String) → W → Ending × State W
  api_main path_of w = ended (api_body path_of (started w))

  unfoldable pub worker_main : W → Ending × State W
  worker_main w = ended (worker_body (started w))

  unfoldable pub ui_main : W → Ending × State W
  ui_main w = ended (ui_body (started w))
