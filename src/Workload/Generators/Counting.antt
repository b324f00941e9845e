-- ===== src/Workload/Generators/Counting.antt =====
-- The operations that the generators of internal/workload/db_write.go and db_read.go report are the
-- calls that the store answered without an error.
use clusterprobe.Prelude.{
  ℕ, suc, ◌≡◌, refl, ap, ◌∙◌, String, Bool, true, false, Option, none, some, List, [], ◌∷◌,
}
use mathlib.Core.Option
use clusterprobe.Go.Int64.{ℤ, pos, wrap64, wrap64-suc, ◌+ℤ◌}
use clusterprobe.Go.Errors.{GoError, Result, ok, err}
use clusterprobe.Workload.Params.{WorkloadParams, validate_duration}
use clusterprobe.Workload.Mixed.{no_result}
use clusterprobe.Workload.Clock.{Round, until_deadline, until_deadline-Holds, Holds}
use clusterprobe.Workload.Generators.{
  Env, Calls, Outcome, calls_clock, keeping, or_default, conclude,
}
use clusterprobe.Workload.Generators.Keeping.{IsKept, counted, write_round_keeps, read_round_keeps}
use clusterprobe.Workload.Generators.DbWrite.{execute_db_write, write_round, written, write_end}
use clusterprobe.Workload.Generators.DbRead.{
  execute_db_read, read_round, reading, with_latency, read_end,
}

-- The answers without an error.
abbrev pub successes : List (Option GoError) → ℕ
successes [] = 0
successes (none ∷ es) = suc (successes es)
successes (some e ∷ es) = successes es

-- The counter, an int64, after the answers so far.
abbrev pub Counts : {W : Type 0} → ℤ → Calls W → Type 0
Counts ops s = ops ≡ wrap64 (pos (successes s.answers))

abbrev pub CountsAtEnd : {W : Type 0} → Option (Outcome × Calls W) → Type 0
CountsAtEnd none = Unit
CountsAtEnd (some ((r, e), s)) = Counts r.ops s

counted-successes :
    (ops : ℤ) (answers : List (Option GoError)) (e : Option GoError)
    → ops ≡ wrap64 (pos (successes answers))
    → counted ops e ≡ wrap64 (pos (successes (e ∷ answers)))
counted-successes ops answers none p = ap (λ x. x +ℤ pos 1) p ∙ wrap64-suc (successes answers)
counted-successes ops answers (some e) p = p

module _ {W : Type 0} (env : Env W) (params : WorkloadParams) where
  Counts-IsKept : IsKept env Counts
  Counts-IsKept = record {
    by_id = λ ops s p. p;
    by_now = λ ops s p. p;
    by_context = λ ops s p. p;
    by_draw = λ n ops s p. p;
    by_wait = λ d ops s p. p;
    by_record = λ ms ops s p. p;
    by_insert = λ query id payload ops s p. counted-successes ops s.answers _ p;
    by_select = λ query since ops s p. counted-successes ops s.answers _ p;
  }

  conclude-Counts :
      (start : ℕ) (ops : ℤ) (f : Option (String × GoError)) (s : Calls W)
      → Counts ops s
      → CountsAtEnd (some (conclude (calls_clock env.clock) start ops f s))
  unfolding conclude
  conclude-Counts start ops none s p = p
  conclude-Counts start ops (some (label, e)) s p = p

  loop-Counts :
      (body : ℤ → Calls W → Round ℤ × Calls W)
      → ((ops : ℤ) (s : Calls W) → Counts ops s → Counts (body ops s).0.value (body ops s).1)
      → (start : ℕ) (d : ℤ) (n : ℕ) (s : Calls W) → Counts (pos 0) s
      → Holds Counts (until_deadline (calls_clock env.clock) body start d n (pos 0) s)
  loop-Counts body keeps start d n s p =
      until_deadline-Holds (calls_clock env.clock) body start d Counts (λ ops s' q. q)
        (λ ops s' q. q) keeps n (pos 0) s p

  map-Counts :
      (start : ℕ) (o : Option (Round ℤ × Calls W))
      → Holds Counts o
      → CountsAtEnd (Option.map (write_end env params start) o)
  unfolding write_end
  map-Counts start none p = tt
  map-Counts start (some (r, s)) p = conclude-Counts start r.value r.failure s p

  written-Counts : (x : ℕ × Calls W) → Counts (pos 0) x.1 → CountsAtEnd (written env params x)
  unfolding written
  written-Counts (start, s) p =
      map-Counts start _ (
        loop-Counts (write_round env params) (write_round_keeps Counts-IsKept params) start _ _ s p)

  refused-Counts :
      (r : Result (Unit {0})) (s : Calls W) (o : Option (Outcome × Calls W))
      → Counts (pos 0) s
      → CountsAtEnd o
      → CountsAtEnd (elim r as (λ r'. Option (Outcome × Calls W)) [
        | err e ↦ some ((no_result, some e), s)
        | ok u ↦ o
      ])
  refused-Counts (err e) s o p q = p
  refused-Counts (ok u) s o p q = q

  -- The operations that a `db_write` run reports are its inserts that succeeded, as a 64-bit number,
  -- however the run ends.
  pub execute_db_write-Counts :
      (stored : Bool) (w : W)
      → CountsAtEnd (execute_db_write env params stored (record { world = w; answers = [] }))
  unfolding execute_db_write
  execute_db_write-Counts false w = refused-Counts (validate_duration params) _ _ refl refl
  execute_db_write-Counts true w =
      refused-Counts (validate_duration params) _ _ refl (written-Counts _ refl)

  reading-Counts : (x : ℕ × Calls W) → Counts (pos 0) x.1 → CountsAtEnd (reading env params x)
  unfolding reading read_end write_end
  reading-Counts (start, s) p = map-Counts start _ (
      loop-Counts (read_round env (or_default (pos 300000) params.read_lookback_ms))
        (read_round_keeps Counts-IsKept _) start _ _ s p)

  with_latency-Counts :
      (x : Option GoError × Calls W)
      → Counts (pos 0) x.1
      → CountsAtEnd (with_latency env params x).1
  unfolding with_latency
  with_latency-Counts (none, s) p = reading-Counts _ p
  with_latency-Counts (some e, s) p = p

  refused_read-Counts :
      (has_latency : Bool) (r : Result (Unit {0})) (s : Calls W)
      (o : Bool × Option (Outcome × Calls W))
      → Counts (pos 0) s
      → CountsAtEnd o.1
      → CountsAtEnd
          (elim r as (λ r'. Bool × Option (Outcome × Calls W)) [
            | err e ↦ (has_latency, some ((no_result, some e), s))
            | ok u ↦ o
          ]).1
  refused_read-Counts has_latency (err e) s o p q = p
  refused_read-Counts has_latency (ok u) s o p q = q

  -- The operations that a `db_read` run reports are its queries that found a row, as a 64-bit
  -- number, however the run ends.
  pub execute_db_read-Counts :
      (stored has_latency : Bool) (w : W)
      → CountsAtEnd
          (execute_db_read env params stored has_latency (record { world = w; answers = [] })).1
  unfolding execute_db_read
  execute_db_read-Counts false has_latency w =
      refused_read-Counts _ (validate_duration params) _ _ refl refl
  execute_db_read-Counts true true w =
      refused_read-Counts _ (validate_duration params) _ _ refl (with_latency-Counts (none, _) refl)
  execute_db_read-Counts true false w =
      refused_read-Counts _ (validate_duration params) _ _ refl
        (with_latency-Counts (keeping env.new_histogram _) refl)
