-- ===== src/Workload/Generators/DbWrite.antt =====
-- `DBWriteGenerator.Execute` of internal/workload/db_write.go.
use mathlib.Core.Option
use clusterprobe.Prelude.{ℕ, zero, suc, String, Bool, true, false, Option, none, some}
use clusterprobe.Go.Int64.{ℤ, pos, pos_part, ◌+ℤ◌}
use clusterprobe.Go.Errors.{GoError, Result, ok, err, msg}
use clusterprobe.Workload.Params.{WorkloadParams, validate_duration}
use clusterprobe.Workload.Mixed.{no_result}
use clusterprobe.Workload.Clock.{Round, until_deadline, rounds_for}
use clusterprobe.Workload.Generators.{
  Outcome, Env, Calls, keeping, asking, calls_clock, conclude, milliseconds, or_default,
}

abbrev pub insert_load_event_query : String
insert_load_event_query = "INSERT INTO load_events (scenario_id, payload) VALUES ($1, $2)"

module _ {W : Type 0} (env : Env W) (params : WorkloadParams) where
  unfoldable pub after_insert :
      ℤ → Option GoError × Calls W → (ℤ → Calls W → Round ℤ × Calls W) → Round ℤ × Calls W
  after_insert ops (some e, s) more =
      (record { value = ops; failure = some ("insert load event", e) }, s)
  after_insert ops (none, s) more = more (ops +ℤ pos 1) s

  -- The inner loop, of which `n` iterations are left.
  unfoldable pub insert_batch : ℕ → String → ℤ → Calls W → Round ℤ × Calls W
  unfolding after_insert
  insert_batch zero payload ops s = (record { value = ops; failure = none }, s)
  insert_batch (suc n) payload ops s =
      after_insert ops (asking (env.exec insert_load_event_query params.scenario_id payload) s)
        (insert_batch n payload)

  unfoldable pub marshalled : ℤ → Result String → Calls W → Round ℤ × Calls W
  marshalled ops (err e) s = (record { value = ops; failure = some ("marshal payload", e) }, s)
  marshalled ops (ok payload) s =
      insert_batch (pos_part (or_default (pos 10) params.batch_size)) payload ops s

  unfoldable pub write_round : ℤ → Calls W → Round ℤ × Calls W
  unfolding marshalled
  write_round ops s =
      let (id, s1) = keeping env.new_id s in
      let (t, s2) = keeping env.clock.now s1 in
      marshalled ops
        (env.marshal record {
          id = id;
          scenario_id = params.scenario_id;
          workload = params.workload_type;
          created_at = t;
        })
        s2

  unfoldable pub write_end : ℕ → Round ℤ × Calls W → Outcome × Calls W
  write_end start (r, s) = conclude (calls_clock env.clock) start r.value r.failure s

  unfoldable pub written : ℕ × Calls W → Option (Outcome × Calls W)
  unfolding write_end
  written (start, s) =
      let d = milliseconds params.duration_ms in
      Option.map (write_end start)
        (until_deadline (calls_clock env.clock) write_round start d (rounds_for d) (pos 0) s)

  -- `Execute`, where `stored` tells if the parameters have a store.
  unfoldable pub execute_db_write : Bool → Calls W → Option (Outcome × Calls W)
  unfolding written
  execute_db_write stored s = elim (validate_duration params) [
    | err e ↦ some ((no_result, some e), s)
    | ok u ↦ elim stored [
      | false ↦ some ((no_result, some (msg "store is required")), s)
      | true ↦ written (keeping env.clock.now s)
    ]
  ]
