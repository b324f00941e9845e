-- ===== src/Workload/Split/Shares.antt =====
-- The arithmetic of `splitMixedDurations` where no operation wraps: on non-negative durations and
-- percentages the phases hold natural numbers.
use clusterprobe.Prelude.{
  ℕ, zero, suc, ◌+◌, ◌*◌, ◌/◌, ◌==◌, ◌≤◌, ◌<◌, ◌≡◌, refl, String, List, [], ◌∷◌, if◌then◌else◌,
  arith,
}
use clusterprobe.Go.Int64.{pos, half_range, pos-+ℤ, pos-*ℤ, quot}
use clusterprobe.Workload.Split.{MixedPhase, share, assign, count_active, sum_durations}

-- The share of a phase with `p` percent of `t` ms.
abbrev pub nat_share : ℕ → ℕ → ℕ
nat_share t p = if p == 0 then 0 else (let ms = t * p / 100 in if ms == 0 then 1 else ms)

mul-lt_half : (t p : ℕ) → p ≤ 100 → t * 100 < half_range → t * p < half_range
mul-lt_half t p h k = grind arith

share_nat :
    (t p : ℕ) → 0 < p → p ≤ 100 → t * 100 < half_range → share (pos t) (pos p) ≡ pos (nat_share t p)
unfolding share quot
share_nat t p h k l = rw (pos-*ℤ t p (mul-lt_half t p k l)) (ground arith)

abbrev pub phase : String → ℕ → ℕ → MixedPhase
phase name p ms = record { name = name; percent = pos p; ms = pos ms }

pub assign_nat :
    (t p : ℕ) (name : String)
    → p ≤ 100
    → t * 100 < half_range
    → assign (pos t) (phase name p 0) ≡ phase name p (nat_share t p)
unfolding assign
assign_nat t zero name k l = refl
assign_nat t (suc p) name k l = rw (share_nat t (suc p) (omega arith) k l) (ground arith)

-- The three phases with their percentages and durations.
abbrev pub three : ℕ → ℕ → ℕ → ℕ → ℕ → ℕ → List MixedPhase
three a b c x y z = phase "cpu" a x ∷ phase "db_write" b y ∷ phase "db_read" c z ∷ []

abbrev pub is_active : ℕ → ℕ
is_active zero = 0
is_active (suc p) = 1

pub count_active-three :
    (a b c x y z : ℕ) → count_active (three a b c x y z) ≡ is_active a + is_active b + is_active c
unfolding count_active
count_active-three a b c x y z = ground arith

pub sum_durations-three :
    (a b c x y z : ℕ) → x + y + z < half_range → sum_durations (three a b c x y z) ≡ pos (x + y + z)
unfolding sum_durations
sum_durations-three a b c x y z h =
    rw (pos-+ℤ 0 x (omega arith))
      (rw (pos-+ℤ (0 + x) y (omega arith)) (rw (pos-+ℤ (0 + x + y) z (omega arith)) (ground arith)))
