-- ===== src/Telemetry/Tests.antt =====
-- The telemetry at concrete inputs: libraries that accept every call, but a JSON handler that cannot
-- write.
use clusterprobe.Prelude.{ℕ, ◌+◌, true, none, some, [], ◌∷◌, ◌≡◌, refl}
use clusterprobe.Go.Int64.{pos}
use clusterprobe.Go.Errors.{ok, msg, wrapped}
use clusterprobe.Telemetry
use clusterprobe.Telemetry.{
  Config, trace_exporter, init, metric_exporter, prometheus_exporter, setup_prometheus_metrics,
  shutdown_all,
}
use clusterprobe.Telemetry.Setup.{
  IsSetUp, fresh, worker_setup, worker_shutdown, worker_setup-IsSetUp,
}
use clusterprobe.Telemetry.Fanout.{Env, json, otel, LogRecord, valid_span, handle, derived}

abbrev config : Config
config = record {
  otlp_endpoint = "otel:4317";
  service_name = "clusterprobe-worker";
  service_version = "dev";
  environment = "unknown";
}

-- The world counts the exporters; no provider shuts down in time.
abbrev counting : Telemetry.Env ℕ
counting = record {
  new_resource = λ attributes w. (none, w);
  new_trace_exporter = λ endpoint w. (ok w, w + 1);
  new_metric_exporter = λ endpoint w. (ok w, w + 1);
  new_prometheus_exporter = λ w. (ok w, w + 1);
  shutdown = λ p w. (some (msg "exporter timed out"), w);
}

four_exporters : (worker_setup counting config (fresh 0)).1.exporters ≡ 3 ∷ 2 ∷ 1 ∷ 0 ∷ []
unfolding worker_setup init setup_prometheus_metrics trace_exporter metric_exporter
    prometheus_exporter
four_exporters = refl

worker_setup-IsSetUp_example :
    IsSetUp config
      (worker_setup counting config (fresh 0)).0
      (worker_setup counting config (fresh 0)).1.globals
      (worker_setup counting config (fresh 0)).1.exporters
      (worker_shutdown counting (worker_setup counting config (fresh 0)))
worker_setup-IsSetUp_example = worker_setup-IsSetUp counting config 0

abbrev full_disk : Env ℕ
full_disk = record {
  enabled = λ sink ds level. true;
  handle = λ sink ds r w. elim sink [
    | json ↦ (some (msg "no space left on device"), w)
    | otel ↦ (none, w + 1)
  ];
}

abbrev line : LogRecord
line = record { level = pos 0; message = "scenario finished"; attributes = ("ops", "10") ∷ [] }

never_reaches_otel :
    (handle full_disk
      (derived [])
      (valid_span "4bf92f35")
      line
      (record { world = 0; trace = [] })).0
    ≡ some (wrapped "json handler" (msg "no space left on device"))
unfolding handle
never_reaches_otel = refl
