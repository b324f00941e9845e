-- ===== src/Workload/Mixed/Filling.antt =====
-- How a mixed run fills its duration.
use clusterprobe.Prelude.{ℕ, ◌+◌, ◌≤◌, Option, none, some, List, [], ◌∷◌, ◌≡◌}
use clusterprobe.Go.Int64.{ℤ, pos_part}
use clusterprobe.Go.Errors.{GoError, wrapped}
use clusterprobe.Workload.Mixed.{Which, label}

-- The milliseconds that the phases were given.
abbrev pub given_ms : List (Which × ℤ × Option GoError) → ℕ
given_ms [] = 0
given_ms ((which, ms, e) ∷ runs) = pos_part ms + given_ms runs

-- No run ended with an error.
abbrev pub AllDone : List (Which × ℤ × Option GoError) → Type 0
AllDone [] = Unit {0}
AllDone ((which, ms, none) ∷ runs) = AllDone runs
AllDone ((which, ms, some e) ∷ runs) = ⊥

-- A run of `t` ms without an error gave its phases `t` ms in all, and no phase failed; one with an
-- error ended with the only phase that failed, and gave `t` ms at most.
abbrev pub Fills : ℕ → Option GoError → List (Which × ℤ × Option GoError) → Type 0
Fills t none runs = (given_ms runs ≡ t) × AllDone runs
Fills t (some e) ((which, ms, some x) ∷ runs) =
    (e ≡ wrapped (label which) x) × (pos_part ms + given_ms runs ≤ t) × AllDone runs
Fills t (some e) _ = ⊥
