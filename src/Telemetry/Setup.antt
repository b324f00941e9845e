-- ===== src/Telemetry/Setup.antt =====
-- The telemetry of cmd/worker: `Init` of internal/telemetry/otel.go, then `setupPrometheusMetrics`.
use clusterprobe.Prelude.{true, false, none, some, List, [], ◌∷◌, map, ◌≡◌, arith}
use clusterprobe.Go.Errors.{Result, ok, err}
use clusterprobe.Go.Action.{Action, ◌>>=◌, pass}
use clusterprobe.Telemetry.{
  Exporter, Provider, tracer_provider, meter_provider, Config, Env, State, Globals, trace_exporter,
  metric_exporter, prometheus_exporter, init, setup_prometheus_metrics, shutdown_all,
}

abbrev pub unset : Globals
unset = record { tracer = none; meter = none; propagates = false; logger = none }

abbrev pub fresh : {W : Type 0} → W → State W
fresh w = record { world = w; globals = unset; exporters = []; shut_down = [] }

-- The shared state after `Init`, by its two exporters.
abbrev pub initialised : Config → (traces metrics : Exporter) → Globals
initialised cfg traces metrics = record {
  tracer = some (tracer_provider traces);
  meter = some (meter_provider (metrics ∷ []));
  propagates = true;
  logger = some cfg.service_name;
}

module _ {W : Type 0} (env : Env W) where
  -- The two calls of the worker's `main`, with the providers of each.
  unfoldable pub worker_setup : Config → Action (State W) (List Provider × List Provider)
  worker_setup cfg = do
    ps ← init env cfg
    qs ← setup_prometheus_metrics env cfg.otlp_endpoint cfg.service_name cfg.service_version
    pass (ps, qs)

  -- The deferred calls of the worker's `main`, the latest first.
  unfoldable pub worker_shutdown : Result (List Provider × List Provider) × State W → List Provider
  worker_shutdown (ok (ps, qs), s) =
      map (λ x. x.0) (shutdown_all env ps (shutdown_all env qs s)).shut_down
  worker_shutdown (err e, s) = []

-- How the set-up may end, with the shared state, the exporters that were made, newest first, and the
-- providers that the end of the process shuts down, newest first. If it succeeds, the meters are
-- those of the second call and all else is of the first, and each exporter belongs to one of the
-- providers that are shut down. If it fails, the shared state is untouched or that of `Init`.
abbrev pub IsSetUp :
    Config
    → Result (List Provider × List Provider)
    → Globals
    → List Exporter
    → List Provider
    → Type 0
IsSetUp cfg (ok both) g (d ∷ c ∷ b ∷ a ∷ []) closed =
    (g ≡ record (initialised cfg a b) { meter = some (meter_provider (c ∷ d ∷ [])) })
    × (closed ≡ meter_provider (b ∷ []) ∷ tracer_provider a ∷ meter_provider (c ∷ d ∷ []) ∷ [])
IsSetUp cfg (ok both) g _ closed = ⊥
IsSetUp cfg (err e) g [] closed = g ≡ unset
IsSetUp cfg (err e) g (a ∷ []) closed = g ≡ unset
IsSetUp cfg (err e) g (b ∷ a ∷ []) closed = g ≡ initialised cfg a b
IsSetUp cfg (err e) g (c ∷ b ∷ a ∷ []) closed = g ≡ initialised cfg a b
IsSetUp cfg (err e) g (d ∷ c ∷ b ∷ a ∷ []) closed = g ≡ initialised cfg a b
IsSetUp cfg (err e) g _ closed = ⊥

-- Whatever the exporters, the resources and the providers answer, the worker's telemetry is set up as
-- described, and its shutdown reaches each provider once, also after one of them has failed.
pub worker_setup-IsSetUp :
    {W : Type 0} (env : Env W) (cfg : Config) (w : W)
    → let (r, s) = worker_setup env cfg (fresh w) in
      IsSetUp cfg r s.globals s.exporters (worker_shutdown env (r, s))
unfolding worker_setup worker_shutdown init setup_prometheus_metrics shutdown_all trace_exporter
    metric_exporter prometheus_exporter
worker_setup-IsSetUp env cfg w = ground arith
