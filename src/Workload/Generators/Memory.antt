-- ===== src/Workload/Generators/Memory.antt =====
-- `MemoryGenerator.Execute` of internal/workload/memory.go. The content of the buffer, which
-- nothing reads, is left out; whether the runtime allocates it is a parameter.
use clusterprobe.Prelude.{ℕ, Bool, true, false, Option, none, some}
use clusterprobe.Go.Int64.{ℤ, pos, ◌*ℤ◌, ◌-ℤ◌}
use clusterprobe.Go.Errors.{GoError, ok, err, wrapped}
use clusterprobe.Workload.Params.{WorkloadParams, validate_duration}
use clusterprobe.Workload.Mixed.{no_result}
use clusterprobe.Workload.Generators.{Outcome, Env, milliseconds, or_default}

-- `params.AllocMB*1024*1024`, after its default.
unfoldable pub buffer_size : WorkloadParams → ℤ
buffer_size p = or_default (pos 1) p.alloc_mb *ℤ pos 1024 *ℤ pos 1024

module _ {W : Type 0} (env : Env W) (make_bytes : ℤ → W → Bool × W) (params : WorkloadParams) where
  -- The context is asked once the wait is over, whatever ended it.
  memory_end : ℕ → ℕ → Option GoError → Outcome
  memory_end start t e = (
    record { ops = buffer_size params; duration = pos t -ℤ pos start; error = "" },
    elim e [ none ↦ none | some e' ↦ some (wrapped "context" e') ],
  )

  held : ℕ → Bool × W → Option (Outcome × W)
  unfolding memory_end
  held start (false, w) = none
  held start (true, w) =
      let (done, w1) = env.wait (milliseconds params.duration_ms) w in
      let (t, w2) = env.clock.now w1 in
      let (e, w3) = env.clock.context_error w2 in some (memory_end start t e, w3)

  allocated : ℕ × W → Option (Outcome × W)
  unfolding held
  allocated (start, w) = held start (make_bytes (buffer_size params) w)

  -- `Execute`; `none` is the panic of `make`.
  unfoldable pub execute_memory : W → Option (Outcome × W)
  unfolding allocated
  execute_memory w = elim (validate_duration params) [
    | err e ↦ some ((no_result, some e), w)
    | ok u ↦ allocated (env.clock.now w)
  ]
