-- ===== src/Workload/Generators/DbRead.antt =====
-- `DBReadGenerator.Execute` of internal/workload/db_read.go.
use mathlib.Core.Option
use clusterprobe.Prelude.{ℕ, String, Bool, true, false, Option, none, some}
use clusterprobe.Go.Int64.{ℤ, pos, leb_ℤ, quot, ◌+ℤ◌, ◌-ℤ◌}
use clusterprobe.Go.Errors.{GoError, Result, ok, err, msg, wrapped}
use clusterprobe.Workload.Params.{WorkloadParams, validate_duration}
use clusterprobe.Workload.Mixed.{no_result}
use clusterprobe.Workload.Clock.{Round, until_deadline, rounds_for}
use clusterprobe.Workload.Generators.{
  Outcome, Env, Calls, keeping, asking, calls_clock, conclude, milliseconds, or_default,
}

abbrev pub select_load_event_query : String
select_load_event_query =
    "SELECT payload FROM load_events WHERE created_at > $1 ORDER BY created_at DESC LIMIT 1"

abbrev pub as_duration : Result ℤ → Result ℤ
as_duration (err e) = err (wrapped "rand" e)
as_duration (ok n) = ok (milliseconds n)

module _ {W : Type 0} (env : Env W) where
  unfoldable pub random_duration : ℤ → W → Result ℤ × W
  random_duration max_ms w = elim (leb_ℤ max_ms (pos 0)) [
    | true ↦ (err (msg "maxMs must be positive"), w)
    | false ↦ let (r, w1) = env.random_below max_ms w in (as_duration r, w1)
  ]

  -- After a wait for 10 ms, which the context may end.
  unfoldable pub after_wait : ℤ → Option GoError × Calls W → Round ℤ × Calls W
  after_wait ops (some e, s) = (record { value = ops; failure = some ("context", e) }, s)
  after_wait ops (none, s) = (record { value = ops; failure = none }, s)

  unfoldable pub timed : ℤ → ℕ → ℕ × Calls W → Round ℤ × Calls W
  timed ops query_start (t, s) = (
    record { value = ops +ℤ pos 1; failure = none },
    record s { world = env.record_latency (quot (pos t -ℤ pos query_start) 1000000) s.world },
  )

  unfoldable pub after_query : ℤ → ℕ → Option GoError × Calls W → Round ℤ × Calls W
  unfolding after_wait timed
  after_query ops query_start (none, s) = timed ops query_start (keeping env.clock.now s)
  after_query ops query_start (some e, s) = elim (env.is_no_rows_error e) [
    | false ↦ (record { value = ops; failure = some ("select load event", e) }, s)
    | true ↦ after_wait ops (keeping (env.wait (milliseconds (pos 10))) s)
  ]

  unfoldable pub with_jitter : ℤ → Result ℤ × Calls W → Round ℤ × Calls W
  unfolding after_query
  with_jitter ops (err e, s) = (record { value = ops; failure = some ("jitter", e) }, s)
  with_jitter ops (ok jitter, s) =
      let (t, s1) = keeping env.clock.now s in
      let (query_start, s2) = keeping env.clock.now s1 in
      after_query ops query_start
        (asking (env.query_row select_load_event_query (pos t -ℤ jitter)) s2)

  unfoldable pub read_round : ℤ → ℤ → Calls W → Round ℤ × Calls W
  unfolding with_jitter
  read_round lookback_ms ops s = with_jitter ops (keeping (random_duration lookback_ms) s)

module _ {W : Type 0} (env : Env W) (params : WorkloadParams) where
  unfoldable pub read_end : ℕ → Round ℤ × Calls W → Outcome × Calls W
  read_end start (r, s) = conclude (calls_clock env.clock) start r.value r.failure s

  unfoldable pub reading : ℕ × Calls W → Option (Outcome × Calls W)
  unfolding read_end
  reading (start, s) =
      let d = milliseconds params.duration_ms in
      let lookback_ms = or_default (pos 300000) params.read_lookback_ms in
      Option.map (read_end start) (
        until_deadline (calls_clock env.clock) (read_round env lookback_ms) start d (rounds_for d)
          (pos 0) s)

  -- The generator keeps its histogram for the next run: the `Bool` tells if it is set.
  unfoldable pub with_latency : Option GoError × Calls W → Bool × Option (Outcome × Calls W)
  unfolding reading
  with_latency (some e, s) =
      (false, some ((no_result, some (wrapped "create latency histogram" e)), s))
  with_latency (none, s) = (true, reading (keeping env.clock.now s))

  -- `Execute`, where `stored` tells if the parameters have a store.
  unfoldable pub execute_db_read :
      (stored has_latency : Bool) → Calls W → Bool × Option (Outcome × Calls W)
  unfolding with_latency
  execute_db_read stored has_latency s = elim (validate_duration params) [
    | err e ↦ (has_latency, some ((no_result, some e), s))
    | ok u ↦ elim stored [
      | false ↦ (has_latency, some ((no_result, some (msg "store is required")), s))
      | true ↦
          with_latency (elim has_latency [ true ↦ (none, s) | false ↦ keeping env.new_histogram s ])
    ]
  ]
