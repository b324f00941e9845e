-- ===== src/Workload/Generators/Burning.antt =====
-- What the loop of `CPUGenerator.Execute` in internal/workload/cpu.go counts.
use mathlib.Core.Option
use clusterprobe.Prelude.{
  ℕ, zero, suc, ◌+◌, ◌*◌, ◌%◌, ◌<◌, ◌≡◌, refl, ap, ◌∙◌, arith, String, Bool, true, false, Option,
  none, some, ◌==◌,
}
use clusterprobe.Go.Int64.{pos, wrap64, wrap64-suc, full_range, ◌+ℤ◌}
use clusterprobe.Go.Errors.{GoError, Result, ok, err, msg}
use clusterprobe.Workload.Params.{WorkloadParams, WorkResult, validate_duration}
use clusterprobe.Workload.Mixed.{no_result}
use clusterprobe.Workload.Clock.{Clock, Round, until_deadline-Holds, Holds}
use clusterprobe.Workload.Generators.{Outcome, conclude}
use clusterprobe.Workload.Generators.Cpu.{
  Burn, spin, spin_round, cpu_result, no_burn, cpu_end, burned, execute_cpu,
}

-- The sum of the `k` numbers from `i` on.
abbrev pub sum_from : (k i : ℕ) → ℕ
sum_from zero i = 0
sum_from (suc k) i = i + sum_from k (suc i)

-- The variables after `n` iterations that added up to `m`.
abbrev pub burn_of : (n m : ℕ) → Burn
burn_of n m = record { ops = wrap64 (pos n); sink = m % full_range }

spin_step :
    (n m i : ℕ)
    → record { ops = wrap64 (pos n) +ℤ pos 1; sink = (m % full_range + i) % full_range }
      ≡ burn_of (suc n) (m + i)
spin_step n m i =
    let sinks : (m % full_range + i) % full_range ≡ (m + i) % full_range = ground arith in
    λ j. record { ops = wrap64-suc n j; sink = sinks j }

spin-burn_of : (k i n m : ℕ) → spin k i (burn_of n m) ≡ burn_of (k + n) (sum_from k i + m)
unfolding spin
spin-burn_of zero i n m =
    let counts : n ≡ 0 + n = omega arith in
    let adds : m ≡ 0 + m = omega arith in λ j. burn_of (counts j) (adds j)
spin-burn_of (suc k) i n m =
    let counts : k + suc n ≡ suc k + n = omega arith in
    let adds : sum_from k (suc i) + (m + i) ≡ (i + sum_from k (suc i)) + m = omega arith in
    ap (spin k (suc i)) (spin_step n m i)
    ∙ spin-burn_of k (suc i) (suc n) (m + i)
    ∙ (λ j. burn_of (counts j) (adds j))

-- `n` rounds of a burn.
abbrev pub AfterRounds : ℕ → Burn → Type 0
AfterRounds n b = b ≡ burn_of (1000 * n) (499500 * n)

round-AfterRounds : (n : ℕ) (b : Burn) → AfterRounds n b → AfterRounds (suc n) (spin 1000 0 b)
round-AfterRounds n b h =
    let counts : 1000 + 1000 * n ≡ 1000 * suc n = omega arith in
    let adds : 499500 + 499500 * n ≡ 499500 * suc n = omega arith in
    ap (spin 1000 0) h
    ∙ spin-burn_of 1000 0 (1000 * n) (499500 * n)
    ∙ (λ j. burn_of (counts j) (adds j))

-- A run reports the iterations of its rounds, of which it had one at least if it did not fail.
abbrev pub Worked : {W : Type 0} → Option (Outcome × W) → Type 0
Worked none = Unit
Worked (some ((r, e), w)) = (n : ℕ) × (r.ops ≡ wrap64 (pos (1000 * n))) × (e ≡ none → 0 < n)

some_rounds : (n : ℕ) (b : Burn) → AfterRounds n b → (b.sink == 0) ≡ false → 0 < n
some_rounds n b h k =
    let sinks : b.sink ≡ (499500 * n) % full_range = ap (λ c. c.sink) h in ground arith

Worked-unless :
    {W : Type 0} (idle : Bool) (r : WorkResult) (n : ℕ) (w : W)
    → r.ops ≡ wrap64 (pos (1000 * n))
    → (idle ≡ false → 0 < n)
    → Worked (
        some (
          elim idle as (λ i. Outcome) [
            | false ↦ (r, none)
            | true ↦ (
              record r { error = "cpu loop produced no work" },
              some (msg "cpu loop produced no work"),
            )
          ],
          w,
        ))
Worked-unless true r n w h k = (n, h, λ e. ground arith)
Worked-unless false r n w h k = (n, h, λ e. k refl)

module _ {W : Type 0} (clock : Clock W) (params : WorkloadParams) where
  cpu_result-Worked :
      (start n : ℕ) (b : Burn) (f : Option (String × GoError)) (w w1 : W)
      → AfterRounds n b
      → Worked (some (cpu_result b f (conclude clock start b.ops f w).0, w1))
  unfolding cpu_result conclude
  cpu_result-Worked start n b (some (label, e)) w w1 h = (n, ap (λ c. c.ops) h, λ k. ground arith)
  cpu_result-Worked start n b none w w1 h =
      Worked-unless (b.sink == 0) _ n w1 (ap (λ c. c.ops) h) (some_rounds n b h)

  cpu_end-Worked :
      (start : ℕ) (o : Option (Round Burn × W))
      → Holds (λ b w. (n : ℕ) × AfterRounds n b) o
      → Worked (Option.map (cpu_end clock params start) o)
  unfolding cpu_end
  cpu_end-Worked start none h = tt
  cpu_end-Worked start (some (r, w)) (n, h) = cpu_result-Worked start n r.value r.failure w w h

  burned-Worked : (x : ℕ × W) → Worked (burned clock params x)
  unfolding burned
  burned-Worked (start, w) = cpu_end-Worked start _ (
      until_deadline-Holds clock spin_round start _ (λ b w'. (n : ℕ) × AfterRounds n b)
        (λ b w' h. h) (λ b w' h. h) (λ b w' (n, h). (suc n, round-AfterRounds n b h)) _ no_burn w
        (0, refl))

  refused-Worked :
      (r : Result (Unit {0})) (w : W) (o : Option (Outcome × W))
      → Worked o
      → Worked (elim r as (λ r'. Option (Outcome × W)) [
        | err e ↦ some ((no_result, some e), w)
        | ok u ↦ o
      ])
  refused-Worked (err e) w o h = (0, refl, λ k. ground arith)
  refused-Worked (ok u) w o h = h

  -- A `cpu_burn` run reports 1,000 operations for each round of its loop, as a 64-bit number, and a
  -- run without an error had a round.
  pub execute_cpu-Worked : (w : W) → Worked (execute_cpu clock params w)
  unfolding execute_cpu
  execute_cpu-Worked w = refused-Worked (validate_duration params) w _ (burned-Worked (clock.now w))
