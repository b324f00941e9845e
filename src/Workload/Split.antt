-- ===== src/Workload/Split.antt =====
-- `splitMixedDurations` of internal/workload/mixed.go: how a mixed run divides its duration among
-- the CPU, write and read phases. The slice of three phases is a list; the indices of the loops are
-- positions in it.
pub mod Shares
pub mod Shrink
pub mod Exact
use clusterprobe.Prelude.{
  ℕ, zero, suc, ◌+◌, ◌-◌, ◌==◌, String, Bool, true, false, ◌||◌, ◌&&◌, Option, none, some, List, [],
  ◌∷◌, ltb, leb, if◌then◌else◌, modify,
}
use clusterprobe.Go.Int64.{ℤ, pos, negsuc, pos_part, neg_part, ltb_ℤ, leb_ℤ, ◌+ℤ◌, ◌-ℤ◌, ◌*ℤ◌, quot}
use clusterprobe.Go.Errors.{msg, Result, ok, err, ◌>>=◌, ◌>>◌, fail_if}

pub record MixedProfile : Type 0 where
  pub cpu_percent : ℤ
  pub db_write_percent : ℤ
  pub db_read_percent : ℤ

pub record MixedDurations : Type 0 where
  pub cpu_ms : ℤ
  pub write_ms : ℤ
  pub read_ms : ℤ

pub record MixedPhase : Type 0 where
  pub name : String
  pub percent : ℤ
  pub ms : ℤ

abbrev is_zero : ℤ → Bool
is_zero (pos n) = n == 0
is_zero (negsuc n) = false

-- A phase's share of the total, at least 1 ms; the body of the first loop for an active phase.
unfoldable pub share : ℤ → ℤ → ℤ
share total percent = let ms = quot (total *ℤ percent) 100 in if is_zero ms then pos 1 else ms

unfoldable pub assign : ℤ → MixedPhase → MixedPhase
assign total p = if ltb_ℤ (pos 0) p.percent then record p { ms = share total p.percent } else p

assign_all : ℤ → List MixedPhase → List MixedPhase
assign_all total [] = []
assign_all total (p ∷ ps) = assign total p ∷ assign_all total ps

-- `active` after the first loop.
unfoldable pub count_active : List MixedPhase → ℕ
count_active [] = 0
count_active (p ∷ ps) =
    let rest = count_active ps in if ltb_ℤ (pos 0) p.percent then suc rest else rest

unfoldable pub sum_from : ℤ → List MixedPhase → ℤ
sum_from total [] = total
sum_from total (p ∷ ps) = sum_from (total +ℤ p.ms) ps

-- `sumDurations`, and `sum` in the second loop.
unfoldable pub sum_durations : List MixedPhase → ℤ
unfolding sum_from
sum_durations phases = sum_from (pos 0) phases

-- The second loop: the first of the phases with the largest percentage. `none` stands for the
-- index -1, whose percentage is -1 as well.
unfoldable pub pick_target : ℕ → Option ℕ → ℤ → List MixedPhase → Option ℕ
pick_target i target best [] = target
pick_target i target best (p ∷ ps) =
    let better = ltb_ℤ (pos 0) p.percent && ltb_ℤ best p.percent in
    pick_target (i + 1) (if better then some i else target) (if better then p.percent else best) ps

-- `phases[remainderTarget].ms += totalMs - sum`, if there is something left and a target.
add_remainder : ℤ → ℤ → Option ℕ → List MixedPhase → List MixedPhase
add_remainder total sum none phases = phases
add_remainder total sum (some i) phases =
    if ltb_ℤ sum total
    then modify phases i (λ p. record p { ms = p.ms +ℤ (total -ℤ sum) })
    else phases

-- One round of the inner loop of the last loop: `none` if no phase is longer than 1 ms.
unfoldable pub reduce_first : List MixedPhase → Option (List MixedPhase)
reduce_first [] = none
reduce_first (p ∷ ps) = elim (ltb_ℤ (pos 1) p.ms) [
  | true ↦ some (record p { ms = p.ms -ℤ pos 1 } ∷ ps)
  | false ↦ elim (reduce_first ps) [ none ↦ none | some qs ↦ some (p ∷ qs) ]
]

-- The last loop, on fuel: each round takes 1 ms away, so what is to be taken away is enough.
unfoldable pub shrink : ℕ → ℤ → List MixedPhase → Result (List MixedPhase)
shrink zero total phases = err (msg "out of fuel")
shrink (suc fuel) total phases = elim (ltb_ℤ total (sum_durations phases)) [
  | true ↦ elim (reduce_first phases) [
    | none ↦ err (msg "duration_ms is too short for mixed profile")
    | some phases' ↦ shrink fuel total phases'
  ]
  | false ↦ ok phases
]

abbrev excess : ℤ → ℤ → ℕ
excess sum total = pos_part sum + neg_part total - (pos_part total + neg_part sum)

to_durations : List MixedPhase → Result MixedDurations
to_durations (c ∷ w ∷ r ∷ ps) = ok (record { cpu_ms = c.ms; write_ms = w.ms; read_ms = r.ms })
to_durations _ = err (msg "unreachable")

-- The phases of a profile, before their durations are set.
unfoldable pub phases_of : MixedProfile → List MixedPhase
phases_of profile =
    record { name = "cpu"; percent = profile.cpu_percent; ms = pos 0 }
    ∷ record { name = "db_write"; percent = profile.db_write_percent; ms = pos 0 }
    ∷ record { name = "db_read"; percent = profile.db_read_percent; ms = pos 0 }
    ∷ []

-- The last loop and the result.
unfoldable pub finish : ℤ → List MixedPhase → Result MixedDurations
unfolding to_durations
finish total filled = do
  final ← shrink (suc (excess (sum_durations filled) total)) total filled
  to_durations final

-- The second loop and what follows.
unfoldable pub fill : ℤ → List MixedPhase → Result MixedDurations
unfolding add_remainder
fill total phases =
    finish total
      (add_remainder total (sum_durations phases) (pick_target 0 none (negsuc 0) phases) phases)

-- From the slice of phases on.
unfoldable pub split_phases : ℤ → List MixedPhase → Result MixedDurations
unfolding assign_all
split_phases total given = do
  let phases = assign_all total given
  fail_if (count_active phases == 0) (msg "mixed profile must include at least one workload")
  fail_if (ltb_ℤ total (pos (count_active phases)))
      (msg "duration_ms is too short for mixed profile")
  fill total phases

abbrev pub default_profile : MixedProfile
default_profile = record {
  cpu_percent = pos 34;
  db_write_percent = pos 33;
  db_read_percent = pos 33;
}

unfoldable pub total_percent : MixedProfile → ℤ
total_percent p = p.cpu_percent +ℤ p.db_write_percent +ℤ p.db_read_percent

unfoldable pub split_mixed_durations : ℤ → MixedProfile → Result MixedDurations
split_mixed_durations total profile = do
  fail_if (leb_ℤ total (pos 0)) (msg "duration_ms must be greater than zero")
  fail_if
      (ltb_ℤ profile.cpu_percent (pos 0)
        || (ltb_ℤ profile.db_write_percent (pos 0) || ltb_ℤ profile.db_read_percent (pos 0)))
      (msg "mixed profile percentages must be non-negative")
  let unset = is_zero (total_percent profile)
  let chosen = if unset then default_profile else profile
  fail_if (ltb_ℤ (pos 100) (if unset then pos 100 else total_percent profile))
      (msg "mixed profile percentages must not exceed 100")
  split_phases total (phases_of chosen)
