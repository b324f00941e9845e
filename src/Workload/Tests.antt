-- ===== src/Workload/Tests.antt =====
-- internal/workload at concrete inputs.
use clusterprobe.Prelude.{ℕ, ◌+◌, ◌≡◌, refl, ◌↔◌, arith, false, none, some, []}
use clusterprobe.Go.Int64.{ℤ, pos, negsuc, ◌+ℤ◌, ◌-ℤ◌, ◌*ℤ◌, quot}
use clusterprobe.Go.Errors.{ok, err, msg, wrapped, error_text}
use clusterprobe.Workload.Params.{WorkloadParams, validate_duration}
use clusterprobe.Workload.Mixed.{Phase, execute_mixed, run_phases, run_phase}
use clusterprobe.Workload.Types.{
  LoadProfile, ScenarioRequest, ScenarioResponse, validate_profile, is_workload_type,
}
use clusterprobe.Workload.Validation.{IsValidProfile, validate_profile_iff}
use clusterprobe.Workload.Split.{
  split_mixed_durations, split_phases, fill, finish, shrink, pick_target, count_active,
  sum_durations, phases_of, assign, share, total_percent, reduce_first,
}
use clusterprobe.Workload.Split.Exact.{percents, Division, split_mixed_durations-Division}

abbrev burn : LoadProfile
burn = record {
  rps = pos 10;
  duration = pos 30000000000;
  payload_size_bytes = pos 0;
  concurrency = pos 2;
  target_queue = "workload.high";
  workload_type = "cpu_burn";
}

burn_accepted : validate_profile burn ≡ ok tt
unfolding validate_profile is_workload_type
burn_accepted = refl

idle_refused :
    validate_profile (record burn { rps = negsuc 3 }) ≡ err (msg "rps must be greater than zero")
unfolding validate_profile
idle_refused = refl

validate_profile_iff_example : (validate_profile burn ≡ ok tt) ↔ IsValidProfile burn
validate_profile_iff_example = validate_profile_iff burn

abbrev burn_request : ScenarioRequest
burn_request = record { name = "burn"; profile = burn; stop_on_error = false }

abbrev burn_response : ScenarioResponse
burn_response = record {
  id = "s1";
  name = "burn";
  profile = burn;
  status = "queued";
  created_at = 5;
}

-- 1000 ms at 34, 33 and 33 percent, and 4 ms at 98, 1 and 1 percent, where the shares are first
-- raised to 1 ms and then cut back.
even_split :
    split_mixed_durations (pos 1000) (percents 0 0 0)
    ≡ ok (record { cpu_ms = pos 340; write_ms = pos 330; read_ms = pos 330 })
unfolding split_mixed_durations split_phases fill finish shrink pick_target count_active
    sum_durations phases_of assign share total_percent reduce_first ◌+ℤ◌ ◌-ℤ◌ ◌*ℤ◌ quot
even_split = refl

short_split :
    split_mixed_durations (pos 4) (percents 98 1 1)
    ≡ ok (record { cpu_ms = pos 2; write_ms = pos 1; read_ms = pos 1 })
unfolding split_mixed_durations split_phases fill finish shrink pick_target count_active
    sum_durations phases_of assign share total_percent reduce_first ◌+ℤ◌ ◌-ℤ◌ ◌*ℤ◌ quot
short_split = refl

split_mixed_durations-Division_example :
    Division 1000 50 0 20 (split_mixed_durations (pos 1000) (percents 50 0 20))
split_mixed_durations-Division_example =
    split_mixed_durations-Division 1000 50 0 20 (omega arith) (omega arith) (omega arith)
      (omega arith)

abbrev mixed_params : WorkloadParams
mixed_params = record {
  scenario_id = "s1";
  workload_type = "mixed";
  duration_ms = pos 1000;
  alloc_mb = pos 1;
  batch_size = pos 2;
  read_lookback_ms = pos 300000;
  mixed_profile = percents 50 0 20;
}

abbrev clock : ℕ → ℤ × ℕ
clock w = (pos w, w + 1)

abbrev counting : Phase ℕ
counting p w = ((record { ops = pos 5; duration = p.duration_ms; error = "" }, none), w + 1000)

-- The generator of the reads fails.
abbrev failing : Phase ℕ
failing p w = ((record { ops = pos 1; duration = pos 0; error = "" }, some (msg "no rows")), w)

-- The run that the failing reads end, without a write phase.
failed_run :
    (execute_mixed clock mixed_params
      (record { cpu = some counting; db_write = some counting; db_read = some failing })
      (record { world = 0; trace = [] })).0
    ≡ (
      record { ops = pos 6; duration = pos 1001; error = "no rows" },
      some (wrapped "db read workload" (msg "no rows")),
    )
unfolding execute_mixed validate_duration run_phases run_phase split_mixed_durations split_phases
    fill finish shrink pick_target count_active sum_durations phases_of assign share total_percent
    reduce_first ◌+ℤ◌ ◌-ℤ◌ ◌*ℤ◌ quot error_text
failed_run = refl
