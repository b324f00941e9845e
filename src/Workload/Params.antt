-- ===== src/Workload/Params.antt =====
-- internal/workload/execute.go: what a generator is given and what it returns.
use clusterprobe.Prelude.{String}
use clusterprobe.Go.Int64.{ℤ, pos, leb_ℤ}
use clusterprobe.Go.Errors.{msg, Result, fail_if}
use clusterprobe.Workload.Split.{MixedProfile}

-- The store is not a field: the generators reach it through their environment.
pub record WorkloadParams : Type 0 where
  pub scenario_id : String
  pub workload_type : String
  pub duration_ms : ℤ
  pub alloc_mb : ℤ
  pub batch_size : ℤ
  pub read_lookback_ms : ℤ
  pub mixed_profile : MixedProfile

-- `Result` of execute.go.
pub record WorkResult : Type 0 where
  pub ops : ℤ
  pub duration : ℤ
  pub error : String

unfoldable pub validate_duration : WorkloadParams → Result (Unit {0})
validate_duration p =
    fail_if (leb_ℤ p.duration_ms (pos 0)) (msg "duration_ms must be greater than zero")
