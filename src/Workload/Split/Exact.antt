-- ===== src/Workload/Split/Exact.antt =====
-- What `splitMixedDurations` promises: the phases of a mixed run fill its duration exactly.
use native.Mathlib.Nat.{mul-le-mul_left}
use clusterprobe.Prelude.{
  ℕ, suc, ◌+◌, ◌-◌, ◌*◌, ◌==◌, ◌≤◌, ◌<◌, ◌≡◌, refl, inl, inr, Option, none, some, ltb,
  if◌then◌else◌, arith, Bool-cases,
}
use clusterprobe.Go.Int64.{ℤ, pos, negsuc, half_range, full_range, pos--ℤ, pos-+ℤ, ◌+ℤ◌}
use clusterprobe.Go.Errors.{GoError, msg, Result, ok, err}
use clusterprobe.Workload.Split.{
  MixedDurations, MixedProfile, pick_target, add_remainder, phases_of, split_phases, assign_all,
  fill, finish, split_mixed_durations, total_percent,
}
use clusterprobe.Workload.Split.Shares.{
  three, is_active, nat_share, assign_nat, count_active-three, sum_durations-three,
}
use clusterprobe.Workload.Split.Shrink.{Shrunk, shrunk}

abbrev pub percents : ℕ → ℕ → ℕ → MixedProfile
percents a b c = record { cpu_percent = pos a; db_write_percent = pos b; db_read_percent = pos c }

module _ (t a b c : ℕ) (small : t * 100 < half_range) where
  assign_all-three :
      a ≤ 100
      → b ≤ 100
      → c ≤ 100
      → assign_all (pos t) (phases_of (percents a b c))
        ≡ three a b c (nat_share t a) (nat_share t b) (nat_share t c)
  unfolding assign_all phases_of
  assign_all-three h k l =
      rw (assign_nat t a "cpu" h small)
        (rw (assign_nat t b "db_write" k small) (rw (assign_nat t c "db_read" l small)))

-- The phase that takes the remainder, as a position.
target_of : ℕ → ℕ → ℕ → ℕ
target_of a b c = if ltb (if ltb a b then b else a) c then 2 else if ltb a b then 1 else 0

pick_target-three :
    (a b c x y z : ℕ)
    → 0 < a + b + c
    → pick_target 0 none (negsuc 0) (three a b c x y z) ≡ some (target_of a b c)
unfolding pick_target target_of
pick_target-three a b c x y z h = ground arith

-- The phases once the remainder is handed out.
record Filled (t a b c x y z : ℕ) : Type 0 where
  cpu : ℕ
  write : ℕ
  read : ℕ
  result :
      add_remainder
        (pos t)
        (pos (x + y + z))
        (pick_target 0 none (negsuc 0) (three a b c x y z))
        (three a b c x y z)
      ≡ three a b c cpu write read
  enough : t ≤ cpu + write + read
  not_more : cpu + write + read ≤ t + (x + y + z - t)
  active :
      (is_active cpu ≡ is_active a)
      × (is_active write ≡ is_active b)
      × (is_active read ≡ is_active c)

module _ (t a b c x y z : ℕ) (some_active : 0 < a + b + c) (small : t < half_range)
    (fits : x + y + z < half_range)
    (act : (is_active x ≡ is_active a)
      × (is_active y ≡ is_active b)
      × (is_active z ≡ is_active c)) where
  filled : Filled t a b c x y z
  unfolding add_remainder target_of
  filled =
      let rest : ℕ = t - (x + y + z) in
      let i : ℕ = target_of a b c in
      record {
        cpu = if i == 0 then x + rest else x;
        write = if i == 1 then y + rest else y;
        read = if i == 2 then z + rest else z;
        result = rw (pick_target-three a b c x y z some_active) (
            ground (
              arith,
              pos--ℤ t (x + y + z),
              pos-+ℤ x (t - (x + y + z)),
              pos-+ℤ y (t - (x + y + z)),
              pos-+ℤ z (t - (x + y + z)),
            ));
        enough = ground arith;
        not_more = ground arith;
        active = ground arith;
      }

-- Percentages that do not exceed 100 take at most the whole, but for the phases raised to 1 ms.
nat_share_sum :
    (t a b c : ℕ) → a + b + c ≤ 100 → nat_share t a + nat_share t b + nat_share t c ≤ t + 3
nat_share_sum t a b c h =
    let whole : t * (a + b + c) ≤ t * 100 = mul-le-mul_left t h in ground arith

nat_share-is_active : (t p : ℕ) → is_active (nat_share t p) ≡ is_active p
nat_share-is_active t p = ground arith

-- A division of `t` ms among the three phases: it fills the time exactly, each phase with a
-- percentage runs for 1 ms at least, and each phase without one does not run.
pub record Division (t a b c : ℕ) (r : Result MixedDurations) : Type 0 where
  pub cpu : ℕ
  pub write : ℕ
  pub read : ℕ
  pub result : r ≡ ok (record { cpu_ms = pos cpu; write_ms = pos write; read_ms = pos read })
  pub exact : cpu + write + read ≡ t
  pub active :
      (is_active cpu ≡ is_active a)
      × (is_active write ≡ is_active b)
      × (is_active read ≡ is_active c)

-- The results of the last loop are the durations.
finish-three :
    (t a b c x y z : ℕ)
    → t ≤ x + y + z
    → x + y + z < half_range
    → is_active x + is_active y + is_active z ≤ t
    → (is_active x ≡ is_active a) × (is_active y ≡ is_active b) × (is_active z ≡ is_active c)
    → Division t a b c (finish (pos t) (three a b c x y z))
unfolding finish
finish-three t a b c x y z h k l act =
    let s : Shrunk (suc (x + y + z + 0 - (t + 0))) t a b c x y z =
      shrunk t a b c (suc (x + y + z + 0 - (t + 0))) x y z (omega arith) h k l in
    record {
      cpu = s.cpu;
      write = s.write;
      read = s.read;
      result = rw (sum_durations-three a b c x y z k) (rw s.result refl);
      exact = s.exact;
      active = omega arith;
    }

module _ (t a b c : ℕ) (small : t * 100 < half_range) (bounded : a + b + c ≤ 100)
    (some_active : 0 < a + b + c) (long : is_active a + is_active b + is_active c ≤ t) where
  fill-Division :
      (x y z : ℕ)
      → x + y + z ≤ t + 3
      → (is_active x ≡ is_active a) × (is_active y ≡ is_active b) × (is_active z ≡ is_active c)
      → Division t a b c (fill (pos t) (three a b c x y z))
  unfolding fill
  fill-Division x y z h act =
      let f : Filled t a b c x y z =
        filled t a b c x y z some_active (omega arith) (omega arith) act in
      rw (sum_durations-three a b c x y z (omega arith)) (
        rw f.result
          (finish-three t a b c f.cpu f.write f.read f.enough (omega arith) (omega arith) f.active))

  split_phases-fill :
      split_phases (pos t) (phases_of (percents a b c))
      ≡ fill (pos t) (three a b c (nat_share t a) (nat_share t b) (nat_share t c))
  unfolding split_phases
  split_phases-fill = ground (
    arith,
    assign_all-three t a b c small (omega arith) (omega arith) (omega arith),
    count_active-three a b c (nat_share t a) (nat_share t b) (nat_share t c),
  )

  split_phases-Division : Division t a b c (split_phases (pos t) (phases_of (percents a b c)))
  split_phases-Division = rw split_phases-fill (
      fill-Division _ _ _ (nat_share_sum t a b c bounded)
        (nat_share-is_active t a, nat_share-is_active t b, nat_share-is_active t c))

total_percent_nat :
    (a b c : ℕ) → a + b + c < half_range → total_percent (percents a b c) ≡ pos (a + b + c)
unfolding total_percent
total_percent_nat a b c h = rw (pos-+ℤ a b (omega arith)) (rw (pos-+ℤ (a + b) c h))

-- For a duration of `t` ms below 2 ^ 63 / 100 and percentages that sum up to at most 100, at least
-- one of them set, and at least 1 ms for each set one, the phases get durations that add up to `t`
-- exactly; a phase runs if and only if its percentage is set.
pub split_mixed_durations-Division :
    (t a b c : ℕ)
    → t * 100 < half_range
    → a + b + c ≤ 100
    → 0 < a + b + c
    → is_active a + is_active b + is_active c ≤ t
    → Division t a b c (split_mixed_durations (pos t) (percents a b c))
unfolding split_mixed_durations
split_mixed_durations-Division t a b c h k l m =
    let e : split_mixed_durations (pos t) (percents a b c)
        ≡ split_phases (pos t) (phases_of (percents a b c)) =
      ground (arith, total_percent_nat a b c) in
    rw e (split_phases-Division t a b c h k l m)

-- A profile with no percentage set is divided as 34, 33 and 33 percent.
pub split_mixed_durations_default :
    (t : ℕ)
    → 3 ≤ t
    → t * 100 < half_range
    → Division t 34 33 33 (split_mixed_durations (pos t) (percents 0 0 0))
unfolding split_mixed_durations total_percent ◌+ℤ◌
split_mixed_durations_default t h k =
    let e : split_mixed_durations (pos t) (percents 0 0 0)
        ≡ split_phases (pos t) (phases_of (percents 34 33 33)) =
      ground arith in
    rw e (split_phases-Division t 34 33 33 k (omega arith) (omega arith) (omega arith))

-- The error that a profile of non-negative percentages is refused with.
abbrev pub refusal : ℕ → ℕ → ℕ → ℕ → Option GoError
refusal t a b c =
    if t == 0
    then some (msg "duration_ms must be greater than zero")
    else if ltb 100 (a + b + c)
    then some (msg "mixed profile percentages must not exceed 100")
    else if ltb t (is_active a + is_active b + is_active c)
    then some (msg "duration_ms is too short for mixed profile")
    else none

-- A duration of 0, percentages that sum up to more than 100, and a duration below 1 ms for each set
-- percentage (where one is set) are refused, in this order and with these messages.
pub split_mixed_durations_refused :
    (t a b c : ℕ) {e : GoError}
    → t * 100 < half_range
    → a + b + c < half_range
    → 0 < a + b + c
    → refusal t a b c ≡ some e
    → split_mixed_durations (pos t) (percents a b c) ≡ err e
unfolding split_mixed_durations split_phases
split_mixed_durations_refused t a b c h k l r = elim (Bool-cases (ltb 100 (a + b + c))) [
  | inl over ↦ ground (arith, total_percent_nat a b c)
  | inr fits ↦ ground (
    arith,
    total_percent_nat a b c,
    assign_all-three t a b c h (ground arith) (ground arith) (ground arith),
    count_active-three a b c (nat_share t a) (nat_share t b) (nat_share t c),
  )
]

-- Percentages whose sum is 2 ^ 64 wrap around to 0: they are not refused as more than 100, and the
-- run is divided as if no percentage were set.
pub split_mixed_durations_wraps :
    (t : ℤ) (a b c : ℕ)
    → a < half_range
    → b < half_range
    → c < half_range
    → a + b + c ≡ full_range
    → split_mixed_durations t (percents a b c) ≡ split_mixed_durations t (percents 0 0 0)
unfolding split_mixed_durations total_percent ◌+ℤ◌
split_mixed_durations_wraps t a b c h k l e = ground arith
