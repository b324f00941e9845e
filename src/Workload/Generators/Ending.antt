-- ===== src/Workload/Generators/Ending.antt =====
-- The runs of internal/workload/cpu.go, db_write.go and db_read.go come to an end.
use clusterprobe.Prelude.{ℕ, ◌≤◌, ◌<◌, ◌≡◌, ◌≢◌, refl, arith, String, Bool, Option, none, some}
use mathlib.Core.Option
use clusterprobe.Go.Int64.{ℤ, pos}
use clusterprobe.Go.Errors.{GoError}
use clusterprobe.Workload.Params.{WorkloadParams}
use clusterprobe.Workload.Clock.{Round, IsTicking, until_deadline_started}
use clusterprobe.Workload.Generators.{Env, Calls, calls_clock, milliseconds, keeping, or_default}
use clusterprobe.Workload.Generators.Keeping.{IsKept, write_round_keeps, read_round_keeps}
use clusterprobe.Workload.Generators.Cpu.{execute_cpu, burned, spin_round, no_burn}
use clusterprobe.Workload.Generators.DbWrite.{execute_db_write, write_round, written}
use clusterprobe.Workload.Generators.DbRead.{execute_db_read, read_round, reading, with_latency}

map_ends : {A B : Type 0} {o : Option A} (f : A → B) → o ≢ none → Option.map f o ≢ none
map_ends {o = none} f h = absurd (h refl)
map_ends {o = some a} f h = ground arith

-- The clock gives the time, every reading of it takes 1 ns at least, and no call turns it back.
pub record IsForward {W : Type 0} (env : Env W) (time : W → ℕ) : Type 0 where
  pub reads : (w : W) → (env.clock.now w).0 ≡ time w
  pub ticks : (w : W) → time w < time (env.clock.now w).1
  pub asks : (w : W) → time w ≤ time (env.clock.context_error w).1
  pub identifies : (w : W) → time w ≤ time (env.new_id w).1
  pub inserts : (query id payload : String) (w : W) → time w ≤ time (env.exec query id payload w).1
  pub selects : (query : String) (since : ℤ) (w : W) → time w ≤ time (env.query_row query since w).1
  pub draws : (n : ℤ) (w : W) → time w ≤ time (env.random_below n w).1
  pub records : (ms : ℤ) (w : W) → time w ≤ time (env.record_latency ms w)
  pub waits : (d : ℤ) (w : W) → time w ≤ time (env.wait d w).1

module _ {W : Type 0} {env : Env W} {time : W → ℕ} (forward : IsForward env time)
    (params : WorkloadParams) where
  Onward : ℕ → ℤ → Calls W → Type 0
  Onward t ops s = t ≤ time s.world

  Onward-IsKept : (t : ℕ) → IsKept env (Onward t)
  unfolding Onward
  Onward-IsKept t = record {
    by_id = λ ops s p. omega (arith, forward.identifies s.world);
    by_now = λ ops s p. omega (arith, forward.ticks s.world);
    by_context = λ ops s p. omega (arith, forward.asks s.world);
    by_draw = λ n ops s p. omega (arith, forward.draws n s.world);
    by_wait = λ d ops s p. omega (arith, forward.waits d s.world);
    by_record = λ ms ops s p. omega (arith, forward.records ms s.world);
    by_insert = λ query id payload ops s p. omega (arith, forward.inserts query id payload s.world);
    by_select = λ query since ops s p. omega (arith, forward.selects query since s.world);
  }

  cpu_ticks : IsTicking env.clock spin_round time
  cpu_ticks = record {
    reads = forward.reads;
    ticks = forward.ticks;
    asks = forward.asks;
    works = λ a w. omega arith;
  }

  calls_tick :
      (body : ℤ → Calls W → Round ℤ × Calls W)
      → ((ops : ℤ) (s : Calls W) → time s.world ≤ time (body ops s).1.world)
      → IsTicking (calls_clock env.clock) body (λ s. time s.world)
  calls_tick body works = record {
    reads = λ s. forward.reads s.world;
    ticks = λ s. forward.ticks s.world;
    asks = λ s. forward.asks s.world;
    works = works;
  }

  write_ticks : IsTicking (calls_clock env.clock) (write_round env params) (λ s. time s.world)
  unfolding Onward
  write_ticks =
      calls_tick (write_round env params)
        (λ ops s. write_round_keeps (Onward-IsKept (time s.world)) params ops s (omega arith))

  read_ticks :
      (max_ms : ℤ) → IsTicking (calls_clock env.clock) (read_round env max_ms) (λ s. time s.world)
  unfolding Onward
  read_ticks max_ms =
      calls_tick (read_round env max_ms)
        (λ ops s. read_round_keeps (Onward-IsKept (time s.world)) max_ms ops s (omega arith))

  burned_ends : (w : W) → burned env.clock params (env.clock.now w) ≢ none
  unfolding burned
  burned_ends w =
      map_ends _
        (until_deadline_started cpu_ticks _ (milliseconds params.duration_ms) no_burn w refl)

  execute_cpu_ends : (w : W) → execute_cpu env.clock params w ≢ none
  unfolding execute_cpu
  execute_cpu_ends w = ground (arith, burned_ends w)

  written_ends : (s : Calls W) → written env params (keeping env.clock.now s) ≢ none
  unfolding written
  written_ends s =
      map_ends _
        (until_deadline_started write_ticks _ (milliseconds params.duration_ms) (pos 0) s refl)

  execute_db_write_ends :
      (stored : Bool) (s : Calls W) → execute_db_write env params stored s ≢ none
  unfolding execute_db_write
  execute_db_write_ends stored s = ground (arith, written_ends s)

  reading_ends : (s : Calls W) → reading env params (keeping env.clock.now s) ≢ none
  unfolding reading
  reading_ends s = map_ends _ (
      until_deadline_started (read_ticks (or_default (pos 300000) params.read_lookback_ms)) _
        (milliseconds params.duration_ms) (pos 0) s refl)

  with_latency_ends : (x : Option GoError × Calls W) → (with_latency env params x).1 ≢ none
  unfolding with_latency
  with_latency_ends (none, s) = reading_ends s
  with_latency_ends (some e, s) = ground arith

  execute_db_read_ends :
      (stored has_latency : Bool) (s : Calls W)
      → (execute_db_read env params stored has_latency s).1 ≢ none
  unfolding execute_db_read
  execute_db_read_ends stored has_latency s =
      ground (arith, with_latency_ends (none, s), with_latency_ends (keeping env.new_histogram s))

  -- Where time does not stand still, the runs of the three generators that loop until a deadline end
  -- within the rounds that the model gives them, whatever the store, the context and the random
  -- source answer.
  pub generators_end :
      ((w : W) → execute_cpu env.clock params w ≢ none)
      × ((stored : Bool) (s : Calls W) → execute_db_write env params stored s ≢ none)
      × ((stored has_latency : Bool) (s : Calls W)
          → (execute_db_read env params stored has_latency s).1 ≢ none)
  generators_end = (execute_cpu_ends, execute_db_write_ends, execute_db_read_ends)
