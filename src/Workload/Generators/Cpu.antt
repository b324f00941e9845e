-- ===== src/Workload/Generators/Cpu.antt =====
-- `CPUGenerator.Execute` of internal/workload/cpu.go.
use mathlib.Core.Option
use clusterprobe.Prelude.{ℕ, zero, suc, ◌+◌, ◌%◌, String, true, false, Option, none, some, ◌==◌}
use clusterprobe.Go.Int64.{ℤ, pos, full_range, ◌+ℤ◌}
use clusterprobe.Go.Errors.{GoError, ok, err, msg}
use clusterprobe.Workload.Params.{WorkloadParams, validate_duration}
use clusterprobe.Workload.Mixed.{no_result}
use clusterprobe.Workload.Clock.{Clock, Round, until_deadline, rounds_for}
use clusterprobe.Workload.Generators.{Outcome, conclude, milliseconds}

-- The variables of the loop; `sink` is a uint64.
pub record Burn : Type 0 where
  pub ops : ℤ
  pub sink : ℕ

-- `for i := uint64(0); i < 1000; i++`, of which `k` iterations are left.
unfoldable pub spin : (k i : ℕ) → Burn → Burn
spin zero i b = b
spin (suc k) i b =
    spin k (suc i) (record { ops = b.ops +ℤ pos 1; sink = (b.sink + i) % full_range })

abbrev pub spin_round : {W : Type 0} → Burn → W → Round Burn × W
spin_round b w = (record { value = spin 1000 0 b; failure = none }, w)

-- A run that nothing ended early fails if its sink is still 0.
unfoldable pub cpu_result : Burn → Option (String × GoError) → Outcome → Outcome
cpu_result b (some f) o = o
cpu_result b none (r, e) = elim (b.sink == 0) [
  | false ↦ (r, e)
  | true ↦
      (record r { error = "cpu loop produced no work" }, some (msg "cpu loop produced no work"))
]

abbrev pub no_burn : Burn
no_burn = record { ops = pos 0; sink = 0 }

module _ {W : Type 0} (clock : Clock W) (params : WorkloadParams) where
  unfoldable pub cpu_end : ℕ → Round Burn × W → Outcome × W
  unfolding cpu_result
  cpu_end start (r, w) =
      let (o, w1) = conclude clock start r.value.ops r.failure w in
      (cpu_result r.value r.failure o, w1)

  unfoldable pub burned : ℕ × W → Option (Outcome × W)
  unfolding cpu_end
  burned (start, w) =
      let d = milliseconds params.duration_ms in
      Option.map (cpu_end start) (until_deadline clock spin_round start d (rounds_for d) no_burn w)

  -- `Execute`; `none` means that `rounds_for` allows too few rounds.
  unfoldable pub execute_cpu : W → Option (Outcome × W)
  unfolding burned
  execute_cpu w = elim (validate_duration params) [
    | err e ↦ some ((no_result, some e), w)
    | ok u ↦ burned (clock.now w)
  ]
