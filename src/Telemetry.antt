-- ===== src/Telemetry.antt =====
-- internal/telemetry/otel.go and `setupPrometheusMetrics` of cmd/worker/main.go. The exporters, the
-- providers and the handlers of OpenTelemetry and slog are parameters.
pub mod Fanout
pub mod Setup
mod Tests
use clusterprobe.Prelude.{ℕ, String, Option, none, some, List, [], ◌∷◌, Bool, true, if◌then◌else◌}
use clusterprobe.Go.Errors.{GoError, Result, ok, err, msg, of_error}
use clusterprobe.Go.Action.{Action, ◌>>=◌, ◌>>◌, lift, pass, within}
use clusterprobe.Workload.Types.{is_empty}

-- An exporter that the libraries have made; a provider is known by its exporters.
abbrev pub Exporter : Type 0
Exporter = ℕ

pub data Provider : Type 0 where
  tracer_provider : Exporter → Provider
  meter_provider : List Exporter → Provider

pub record Config : Type 0 where
  pub otlp_endpoint : String
  pub service_name : String
  pub service_version : String
  pub environment : String

-- The attributes of `resource.New` that the source gives.
abbrev pub Attributes : Type 0
Attributes = List (String × String)

pub record Env (W : Type 0) : Type 0 where
  pub new_resource : Attributes → W → Option GoError × W
  pub new_trace_exporter : (endpoint : String) → W → Result Exporter × W
  pub new_metric_exporter : (endpoint : String) → W → Result Exporter × W
  pub new_prometheus_exporter : W → Result Exporter × W
  -- within five seconds
  pub shutdown : Provider → W → Option GoError × W

-- What the process shares: the providers of the package `otel`, whether trace contexts are passed on,
-- and the service that the default logger names.
pub record Globals : Type 0 where
  pub tracer : Option Provider
  pub meter : Option Provider
  pub propagates : Bool
  pub logger : Option String

-- The state also has the exporters that were made and the providers that were shut down, newest first.
pub record State (W : Type 0) : Type 0 where
  pub world : W
  pub globals : Globals
  pub exporters : List Exporter
  pub shut_down : List (Provider × Option GoError)

module _ {W : Type 0} (env : Env W) where
  abbrev with_resource : Attributes → Action (State W) (Unit {0})
  with_resource attributes s =
      let (e, w) = env.new_resource attributes s.world in (of_error e, record s { world = w })

  abbrev kept : Result Exporter × W → State W → Result Exporter × State W
  kept (ok x, w) s = (ok x, record s { world = w; exporters = x ∷ s.exporters })
  kept (err e, w) s = (err e, record s { world = w })

  unfoldable pub trace_exporter : String → Action (State W) Exporter
  trace_exporter endpoint s = kept (env.new_trace_exporter endpoint s.world) s

  unfoldable pub metric_exporter : String → Action (State W) Exporter
  metric_exporter endpoint s = kept (env.new_metric_exporter endpoint s.world) s

  unfoldable pub prometheus_exporter : Action (State W) Exporter
  prometheus_exporter s = kept (env.new_prometheus_exporter s.world) s

  abbrev set_globals : Globals → Action (State W) (Unit {0})
  set_globals g s = (ok tt, record s { globals = g })

  abbrev set_meter : Provider → Action (State W) (Unit {0})
  set_meter p s = (ok tt, record s { globals = record s.globals { meter = some p } })

  -- `Init`, with the providers that its result shuts down, in this order.
  unfoldable pub init : Config → Action (State W) (List Provider)
  init cfg = if is_empty cfg.otlp_endpoint then lift (err (msg "otel endpoint is required")) else do
    within "build resource" (
        with_resource (
          ("service.name", cfg.service_name)
          ∷ ("service.version", cfg.service_version)
          ∷ ("deployment.environment.name", cfg.environment)
          ∷ []))
    traces ← within "create trace exporter" (trace_exporter cfg.otlp_endpoint)
    metrics ← within "create metric exporter" (metric_exporter cfg.otlp_endpoint)
    set_globals (record {
      tracer = some (tracer_provider traces);
      meter = some (meter_provider (metrics ∷ []));
      propagates = true;
      logger = some cfg.service_name;
    })
    pass (tracer_provider traces ∷ meter_provider (metrics ∷ []) ∷ [])

  -- `setupPrometheusMetrics`, without the handler that it returns.
  unfoldable pub setup_prometheus_metrics :
      (endpoint service version : String) → Action (State W) (List Provider)
  setup_prometheus_metrics endpoint service version = do
    pushed ← within "create otlp metric exporter" (metric_exporter endpoint)
    scraped ← within "create prometheus exporter" prometheus_exporter
    within "build resource"
        (with_resource (("service.name", service) ∷ ("service.version", version) ∷ []))
    set_meter (meter_provider (pushed ∷ scraped ∷ []))
    pass (meter_provider (pushed ∷ scraped ∷ []) ∷ [])

  -- The functions that both return. An error of a provider is logged.
  unfoldable pub shutdown_all : List Provider → State W → State W
  shutdown_all [] s = s
  shutdown_all (p ∷ ps) s =
      let (e, w) = env.shutdown p s.world in
      shutdown_all ps (record s { world = w; shut_down = (p, e) ∷ s.shut_down })
