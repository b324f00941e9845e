-- ===== src/Workload/Mixed.antt =====
-- `MixedGenerator.Execute` of internal/workload/mixed.go. The three generators and the clock are
-- functions over an unknown world; the state keeps the runs of the phases, newest first. Spans and
-- log lines are left out.
pub mod Filling
use clusterprobe.Prelude.{String, true, false, Option, none, some, List, ◌∷◌}
use clusterprobe.Go.Int64.{ℤ, pos, ltb_ℤ, ◌+ℤ◌, ◌-ℤ◌}
use clusterprobe.Go.Errors.{GoError, Result, ok, err, msg, wrapped, error_text}
use clusterprobe.Workload.Params.{WorkloadParams, WorkResult, validate_duration}
use clusterprobe.Workload.Split.{MixedDurations, split_mixed_durations}

abbrev pub Phase : Type 0 → Type 0
Phase W = WorkloadParams → W → (WorkResult × Option GoError) × W

-- A generator that is not set is nil.
pub record MixedGenerator (W : Type 0) : Type 0 where
  pub cpu : Option (Phase W)
  pub db_write : Option (Phase W)
  pub db_read : Option (Phase W)

pub data Which : Type 0 where
  cpu_phase write_phase read_phase : Which

pub record Runs (W : Type 0) : Type 0 where
  pub world : W
  pub trace : List (Which × ℤ × Option GoError)

abbrev pub no_result : WorkResult
no_result = record { ops = pos 0; duration = pos 0; error = "" }

abbrev pub label : Which → String
label cpu_phase = "cpu workload"
label write_phase = "db write workload"
label read_phase = "db read workload"

module _ {W : Type 0} (clock : W → ℤ × W) (params : WorkloadParams) where
  note_run :
      Which → ℤ → ℤ → Runs W → (WorkResult × Option GoError) × W → (ℤ × Option GoError) × Runs W
  note_run which ms ops s ((r, e), w) =
      ((ops +ℤ r.ops, e), record { world = w; trace = (which, ms, e) ∷ s.trace })

  -- One phase, if its duration is above 0: the operations so far and its error.
  unfoldable pub run_phase : Which → Phase W → ℤ → ℤ → Runs W → (ℤ × Option GoError) × Runs W
  unfolding note_run
  run_phase which gen ms ops s = elim (ltb_ℤ (pos 0) ms) [
    | false ↦ ((ops, none), s)
    | true ↦ note_run which ms ops s (gen (record params { duration_ms = ms }) s.world)
  ]

  finished : ℤ → ℤ → String → Option GoError → Runs W → (WorkResult × Option GoError) × Runs W
  finished start ops text e s =
      let (now, w) = clock s.world in
      ((record { ops = ops; duration = now -ℤ start; error = text }, e), record s { world = w })

  after_phase :
      ℤ
      → Which
      → (ℤ × Option GoError) × Runs W
      → (ℤ → Runs W → (WorkResult × Option GoError) × Runs W)
      → (WorkResult × Option GoError) × Runs W
  unfolding finished
  after_phase start which ((ops, some e), s) more =
      finished start ops (error_text e) (some (wrapped (label which) e)) s
  after_phase start which ((ops, none), s) more = more ops s

  unfoldable pub run_phases :
      ℤ
      → MixedDurations
      → (cpu write read : Phase W) → Runs W
      → (WorkResult × Option GoError) × Runs W
  unfolding after_phase finished
  run_phases start d cpu write read s =
      after_phase start cpu_phase (run_phase cpu_phase cpu d.cpu_ms (pos 0) s) (λ ops s1.
        after_phase start write_phase (run_phase write_phase write d.write_ms ops s1) (λ ops2 s2.
          after_phase start read_phase (run_phase read_phase read d.read_ms ops2 s2)
            (λ ops3 s3. finished start ops3 "" none s3)))

  divided :
      ℤ
      → Result MixedDurations
      → (cpu write read : Phase W) → Runs W
      → (WorkResult × Option GoError) × Runs W
  unfolding run_phases
  divided start (err e) cpu write read s = ((no_result, some e), s)
  divided start (ok d) cpu write read s = run_phases start d cpu write read s

  started : (cpu write read : Phase W) → Runs W → (WorkResult × Option GoError) × Runs W
  unfolding divided
  started cpu write read s =
      let (start, w) = clock s.world in
      divided start (split_mixed_durations params.duration_ms params.mixed_profile) cpu write read
        (record s { world = w })

  incomplete : Runs W → (WorkResult × Option GoError) × Runs W
  incomplete s =
      ((no_result, some (msg "mixed generator requires cpu, db_write, and db_read generators")), s)

  all_set :
      Option (Phase W)
      → Option (Phase W)
      → Option (Phase W)
      → Runs W
      → (WorkResult × Option GoError) × Runs W
  unfolding started incomplete
  all_set (some cpu) (some write) (some read) s = started cpu write read s
  all_set none write read s = incomplete s
  all_set (some cpu) none read s = incomplete s
  all_set (some cpu) (some write) none s = incomplete s

  -- `Execute`
  unfoldable pub execute_mixed : MixedGenerator W → Runs W → (WorkResult × Option GoError) × Runs W
  unfolding all_set
  execute_mixed g s = elim (validate_duration params) [
    | err e ↦ ((no_result, some e), s)
    | ok u ↦ all_set g.cpu g.db_write g.db_read s
  ]
