-- ===== src/Workload/Generators/Keeping.antt =====
-- The invariant rule of one round of the generators in internal/workload/db_write.go and db_read.go.
use clusterprobe.Prelude.{ℕ, zero, suc, String, true, false, Option, none, some}
use clusterprobe.Go.Int64.{ℤ, pos, leb_ℤ, ◌+ℤ◌}
use clusterprobe.Go.Errors.{GoError, Result, ok, err, msg}
use clusterprobe.Workload.Params.{WorkloadParams}
use clusterprobe.Workload.Clock.{Round}
use clusterprobe.Workload.Generators.{Env, Calls, keeping, asking, milliseconds}
use clusterprobe.Workload.Generators.DbWrite.{insert_batch, after_insert, marshalled, write_round}
use clusterprobe.Workload.Generators.DbRead.{
  read_round, random_duration, with_jitter, after_query, after_wait, timed, as_duration,
}

-- The operations after an answer of the store.
abbrev pub counted : ℤ → Option GoError → ℤ
counted ops none = ops +ℤ pos 1
counted ops (some e) = ops

-- Every call that a round makes keeps `P`.
pub record IsKept {κ} {W : Type 0} (env : Env W) (P : ℤ → Calls W → Type κ) : Type κ where
  pub by_id : (ops : ℤ) (s : Calls W) → P ops s → P ops (keeping env.new_id s).1
  pub by_now : (ops : ℤ) (s : Calls W) → P ops s → P ops (keeping env.clock.now s).1
  pub by_context : (ops : ℤ) (s : Calls W) → P ops s → P ops (keeping env.clock.context_error s).1
  pub by_draw : (n ops : ℤ) (s : Calls W) → P ops s → P ops (keeping (env.random_below n) s).1
  pub by_wait : (d ops : ℤ) (s : Calls W) → P ops s → P ops (keeping (env.wait d) s).1
  pub by_record :
      (ms ops : ℤ) (s : Calls W)
      → P ops s
      → P ops (record s { world = env.record_latency ms s.world })
  pub by_insert :
      (query id payload : String) (ops : ℤ) (s : Calls W)
      → P ops s
      → P
          (counted ops (env.exec query id payload s.world).0)
          (asking (env.exec query id payload) s).1
  pub by_select :
      (query : String) (since ops : ℤ) (s : Calls W)
      → P ops s
      → P
          (counted ops (env.query_row query since s.world).0)
          (asking (env.query_row query since) s).1

module _ {κ} {W : Type 0} {env : Env W} {P : ℤ → Calls W → Type κ} (kept : IsKept env P) where
  abbrev pub Ends : Round ℤ × Calls W → Type κ
  Ends x = P x.0.value x.1

  module _ (params : WorkloadParams) where
    after_insert_keeps :
        (ops : ℤ) (x : Option GoError × Calls W) (more : ℤ → Calls W → Round ℤ × Calls W)
        → P (counted ops x.0) x.1
        → ((ops' : ℤ) (s : Calls W) → P ops' s → Ends (more ops' s))
        → Ends (after_insert env params ops x more)
    unfolding after_insert
    after_insert_keeps ops (none, s) more p next = next (ops +ℤ pos 1) s p
    after_insert_keeps ops (some e, s) more p next = p

    insert_batch_keeps :
        (n : ℕ) (payload : String) (ops : ℤ) (s : Calls W)
        → P ops s
        → Ends (insert_batch env params n payload ops s)
    unfolding insert_batch
    insert_batch_keeps zero payload ops s p = p
    insert_batch_keeps (suc n) payload ops s p =
        after_insert_keeps ops _ _ (kept.by_insert _ _ payload ops s p)
          (insert_batch_keeps n payload)

    marshalled_keeps :
        (ops : ℤ) (r : Result String) (s : Calls W) → P ops s → Ends (marshalled env params ops r s)
    unfolding marshalled
    marshalled_keeps ops (err e) s p = p
    marshalled_keeps ops (ok payload) s p = insert_batch_keeps _ payload ops s p

    pub write_round_keeps : (ops : ℤ) (s : Calls W) → P ops s → Ends (write_round env params ops s)
    unfolding write_round
    write_round_keeps ops s p = marshalled_keeps ops _ _ (kept.by_now ops _ (kept.by_id ops s p))

  after_wait_keeps :
      (ops : ℤ) (x : Option GoError × Calls W) → P ops x.1 → Ends (after_wait env ops x)
  unfolding after_wait
  after_wait_keeps ops (none, s) p = p
  after_wait_keeps ops (some e, s) p = p

  after_query_keeps :
      (ops : ℤ) (start : ℕ) (x : Option GoError × Calls W)
      → P (counted ops x.0) x.1
      → Ends (after_query env ops start x)
  unfolding after_query timed
  after_query_keeps ops start (none, s) p =
      kept.by_record _ (ops +ℤ pos 1) _ (kept.by_now (ops +ℤ pos 1) s p)
  after_query_keeps ops start (some e, s) p =
      elim (env.is_no_rows_error e)
        as (λ b. Ends (elim b as (λ b'. Round ℤ × Calls W) [
          | false ↦ (record { value = ops; failure = some ("select load event", e) }, s)
          | true ↦ after_wait env ops (keeping (env.wait (milliseconds (pos 10))) s)
        ])) [ false ↦ p | true ↦ after_wait_keeps ops _ (kept.by_wait _ ops s p) ]

  with_jitter_keeps : (ops : ℤ) (x : Result ℤ × Calls W) → P ops x.1 → Ends (with_jitter env ops x)
  unfolding with_jitter
  with_jitter_keeps ops (err e, s) p = p
  with_jitter_keeps ops (ok jitter, s) p =
      after_query_keeps ops _ _ (kept.by_select _ _ ops _ (kept.by_now ops _ (kept.by_now ops s p)))

  random_duration_keeps :
      (max_ms ops : ℤ) (s : Calls W) → P ops s → P ops (keeping (random_duration env max_ms) s).1
  unfolding random_duration
  random_duration_keeps max_ms ops s p =
      elim (leb_ℤ max_ms (pos 0))
        as (λ b. P ops (record s {
          world =
              (elim b as (λ b'. Result ℤ × W) [
                | true ↦ (err (msg "maxMs must be positive"), s.world)
                | false ↦ let (r, w1) = env.random_below max_ms s.world in (as_duration r, w1)
              ]).1;
        })) [ true ↦ p | false ↦ kept.by_draw max_ms ops s p ]

  pub read_round_keeps :
      (max_ms ops : ℤ) (s : Calls W) → P ops s → Ends (read_round env max_ms ops s)
  unfolding read_round
  read_round_keeps max_ms ops s p = with_jitter_keeps ops _ (random_duration_keeps max_ms ops s p)
