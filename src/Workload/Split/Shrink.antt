-- ===== src/Workload/Split/Shrink.antt =====
-- The last loop of `splitMixedDurations`: it ends, and takes away exactly what is too much.
use clusterprobe.Prelude.{
  ℕ, String, zero, suc, ◌+◌, ◌≤◌, ◌<◌, ◌≡◌, ◌∙◌, tests, refl, inl, inr, some, List, [], ◌∷◌, ltb,
  arith, Bool-cases, ltb→lt,
}
use clusterprobe.Go.Int64.{pos, half_range, pos--ℤ}
use clusterprobe.Go.Errors.{ok}
use clusterprobe.Workload.Split.{MixedPhase, reduce_first, shrink}
use clusterprobe.Workload.Split.Shares.{phase, three, is_active, sum_durations-three}

-- One round: some phase is longer than 1 ms, and the first such phase gives 1 ms up.
data Reduced (a b c x y z : ℕ) : Type 0 where
  by :
      (x' y' z' : ℕ)
      → reduce_first (three a b c x y z) ≡ some (three a b c x' y' z')
      → suc (x' + y' + z') ≡ x + y + z
      → (x' ≤ x) × (y' ≤ y) × (z' ≤ z)
      → (is_active x' ≡ is_active x) × (is_active y' ≡ is_active y) × (is_active z' ≡ is_active z)
      → Reduced a b c x y z

reduce_first_long :
    (name : String) (p m : ℕ) (ps : List MixedPhase)
    → suc (suc m) < half_range
    → reduce_first (phase name p (suc (suc m)) ∷ ps) ≡ some (phase name p (suc m) ∷ ps)
unfolding reduce_first
reduce_first_long name p m ps k = ground (arith, pos--ℤ (suc (suc m)) 1)

reduce_first_short :
    (name : String) (p m : ℕ) (ps : List MixedPhase) {qs : List MixedPhase}
    → m ≤ 1
    → reduce_first ps ≡ some qs
    → reduce_first (phase name p m ∷ ps) ≡ some (phase name p m ∷ qs)
unfolding reduce_first
reduce_first_short name p m ps h k = ground arith

le-is_active : (x : ℕ) → x ≤ 1 → x ≤ is_active x
le-is_active x h = ground arith

module _ (a b c : ℕ) where
  Reduced-read :
      (x y z : ℕ)
      → x ≤ 1
      → y ≤ 1
      → x + y + z < half_range
      → is_active x + is_active y + is_active z < x + y + z
      → Reduced a b c x y z
  Reduced-read x y (suc (suc z)) hx hy k h =
      by x y (suc z)
        (reduce_first_short _ a x _ hx
          (reduce_first_short _ b y _ hy (reduce_first_long _ c z [] (omega arith))))
        (omega arith) (omega arith) (refl, refl, refl)
  Reduced-read x y zero hx hy k h = absurd (omega (arith, le-is_active x hx, le-is_active y hy))
  Reduced-read x y (suc zero) hx hy k h =
      absurd (omega (arith, le-is_active x hx, le-is_active y hy))

  Reduced-write :
      (x y z : ℕ)
      → x ≤ 1
      → x + y + z < half_range
      → is_active x + is_active y + is_active z < x + y + z
      → Reduced a b c x y z
  Reduced-write x (suc (suc y)) z hx k h =
      by x (suc y) z (reduce_first_short _ a x _ hx (reduce_first_long _ b y _ (omega arith)))
        (omega arith) (omega arith) (refl, refl, refl)
  Reduced-write x zero z hx k h = Reduced-read x 0 z hx (omega arith) k h
  Reduced-write x (suc zero) z hx k h = Reduced-read x 1 z hx (omega arith) k h

  reduced :
      (x y z : ℕ)
      → x + y + z < half_range
      → is_active x + is_active y + is_active z < x + y + z
      → Reduced a b c x y z
  reduced (suc (suc x)) y z k h =
      by (suc x) y z (reduce_first_long _ a x _ (omega arith)) (omega arith) (omega arith)
        (refl, refl, refl)
  reduced zero y z k h = Reduced-write 0 y z (omega arith) k h
  reduced (suc zero) y z k h = Reduced-write 1 y z (omega arith) k h

-- What the last loop leaves.
pub record Shrunk (fuel t a b c x y z : ℕ) : Type 0 where
  pub cpu : ℕ
  pub write : ℕ
  pub read : ℕ
  pub result : shrink fuel (pos t) (three a b c x y z) ≡ ok (three a b c cpu write read)
  pub exact : cpu + write + read ≡ t
  pub at_most : (cpu ≤ x) × (write ≤ y) × (read ≤ z)
  pub active :
      (is_active cpu ≡ is_active x)
      × (is_active write ≡ is_active y)
      × (is_active read ≡ is_active z)

module _ (t a b c : ℕ) where
  shrink_done :
      (fuel x y z : ℕ)
      → x + y + z ≡ t
      → t < half_range
      → shrink (suc fuel) (pos t) (three a b c x y z) ≡ ok (three a b c x y z)
  unfolding shrink
  shrink_done fuel x y z e k = ground (arith, sum_durations-three a b c x y z)

  shrink_step :
      (fuel x y z : ℕ) {qs : List MixedPhase}
      → t < x + y + z
      → x + y + z < half_range
      → reduce_first (three a b c x y z) ≡ some qs
      → shrink (suc fuel) (pos t) (three a b c x y z) ≡ shrink fuel (pos t) qs
  unfolding shrink
  shrink_step fuel x y z h k e = ground (arith, sum_durations-three a b c x y z)

  Shrunk-more :
      (fuel x y z : ℕ)
      → x + y + z < half_range
      → t < x + y + z
      → Reduced a b c x y z
      → ((x' y' z' : ℕ)
          → suc (x' + y' + z') ≡ x + y + z
          → is_active x' + is_active y' + is_active z' ≡ is_active x + is_active y + is_active z
          → Shrunk fuel t a b c x' y' z')
      → Shrunk (suc fuel) t a b c x y z
  Shrunk-more fuel x y z k l (by x' y' z' e d m v) rest =
      let r = rest x' y' z' d (omega arith) in
      record {
        cpu = r.cpu;
        write = r.write;
        read = r.read;
        result = shrink_step fuel x y z l k e ∙ r.result;
        exact = r.exact;
        at_most = omega arith;
        active = omega arith;
      }

  -- The loop ends with the exact total, by fuel that exceeds what is to be taken away, provided each
  -- active phase can keep 1 ms.
  pub shrunk :
      (fuel x y z : ℕ)
      → x + y + z < t + fuel
      → t ≤ x + y + z
      → x + y + z < half_range
      → is_active x + is_active y + is_active z ≤ t
      → Shrunk fuel t a b c x y z
  shrunk zero x y z h l k s = absurd (omega arith)
  shrunk (suc fuel) x y z h l k s = elim (Bool-cases (ltb t (x + y + z))) [
    | inl more ↦
        Shrunk-more fuel x y z k (ltb→lt _ _ more) (reduced a b c x y z k (omega tests))
          (λ x' y' z' e q.
            shrunk fuel x' y' z' (omega arith) (omega tests) (omega arith) (omega arith))
    | inr done ↦ record {
      cpu = x;
      write = y;
      read = z;
      result = shrink_done fuel x y z (ground arith) (ground arith);
      exact = ground arith;
      at_most = omega arith;
      active = (refl, refl, refl);
    }
  ]
