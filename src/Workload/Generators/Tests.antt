-- ===== src/Workload/Generators/Tests.antt =====
-- The generators of internal/workload at concrete inputs: a clock that takes 0.4 ms a reading, and a
-- store that refuses inserts from 2 ms on.
use clusterprobe.Prelude.{
  ℕ, ◌+◌, ◌≡◌, ◌≢◌, refl, arith, Bool, true, false, Option, none, some, [], ◌∷◌, ltb, str_eq,
}
use clusterprobe.Go.Int64.{pos, ◌+ℤ◌, ◌-ℤ◌, ◌*ℤ◌}
use clusterprobe.Go.Errors.{GoError, msg, wrapped, ok, error_text}
use clusterprobe.Workload.Params.{WorkloadParams, validate_duration}
use clusterprobe.Workload.Clock.{Clock, until_deadline}
use clusterprobe.Workload.Generators.{Env, Calls, conclude}
use clusterprobe.Workload.Generators.Cpu.{execute_cpu, spin}
use clusterprobe.Workload.Generators.DbWrite.{execute_db_write, write_round, insert_batch}
use clusterprobe.Workload.Generators.DbRead.{execute_db_read}
use clusterprobe.Workload.Generators.Ending.{IsForward, generators_end}
use clusterprobe.Workload.Generators.Counting.{CountsAtEnd, execute_db_write-Counts}

abbrev slow_clock : Clock ℕ
slow_clock = record { now = λ t. (t, t + 400000); context_error = λ t. (none, t) }

abbrev refusing_after : ℕ → ℕ → Option GoError × ℕ
refusing_after limit t = (elim (ltb t limit) [ true ↦ none | false ↦ some (msg "disk full") ], t)

abbrev store : Env ℕ
store = record {
  clock = slow_clock;
  new_id = λ t. ("id", t);
  marshal = λ p. ok "{}";
  exec = λ query id payload t. refusing_after 2000000 t;
  query_row = λ query since t. refusing_after 2000000 t;
  is_no_rows_error = λ e. str_eq (error_text e) "no rows in result set";
  random_below = λ n t. (ok (pos 1), t);
  new_histogram = λ t. (none, t);
  record_latency = λ ms t. t;
  wait = λ d t. (none, t + 10000000);
}

abbrev short_run : WorkloadParams
short_run = record {
  scenario_id = "s1";
  workload_type = "db_write";
  duration_ms = pos 3;
  alloc_mb = pos 0;
  batch_size = pos 2;
  read_lookback_ms = pos 0;
  mixed_profile = record { cpu_percent = pos 0; db_write_percent = pos 0; db_read_percent = pos 0 };
}

-- The second round finds the disk full.
disk_fills :
    execute_db_write store short_run true (record { world = 0; answers = [] })
    ≡ some (
        (
          (
            record { ops = pos 2; duration = pos 2000000; error = "disk full" },
            some (wrapped "insert load event" (msg "disk full")),
          ),
          record { world = 2400000; answers = some (msg "disk full") ∷ none ∷ none ∷ [] },
        ))
unfolding execute_db_write validate_duration until_deadline ◌*ℤ◌ write_round insert_batch conclude
    ◌+ℤ◌ ◌-ℤ◌ error_text
disk_fills = refl

burns :
    execute_cpu slow_clock (record short_run { duration_ms = pos 1 }) 0
    ≡ some ((record { ops = pos 2000; duration = pos 1600000; error = "" }, none), 2000000)
unfolding execute_cpu validate_duration until_deadline ◌*ℤ◌ spin conclude ◌+ℤ◌ ◌-ℤ◌
burns = refl

store-IsForward : IsForward store (λ t. t)
store-IsForward = record {
  reads = λ t. refl;
  ticks = λ t. omega arith;
  asks = λ t. omega arith;
  identifies = λ t. omega arith;
  inserts = λ query id payload t. omega arith;
  selects = λ query since t. omega arith;
  draws = λ n t. omega arith;
  records = λ ms t. omega arith;
  waits = λ d t. omega arith;
}

generators_end_example :
    ((t : ℕ) → execute_cpu slow_clock short_run t ≢ none)
    × ((stored : Bool) (s : Calls ℕ) → execute_db_write store short_run stored s ≢ none)
    × ((stored has_latency : Bool) (s : Calls ℕ)
        → (execute_db_read store short_run stored has_latency s).1 ≢ none)
generators_end_example = generators_end store-IsForward short_run

execute_db_write-Counts_example :
    CountsAtEnd (execute_db_write store short_run true (record { world = 0; answers = [] }))
execute_db_write-Counts_example = execute_db_write-Counts store short_run true 0
