-- ===== src/Worker/Handler.antt =====
-- `handleMessage` and `buildGenerators` of cmd/worker/main.go.
use clusterprobe.Prelude.{String, ◌<>◌, Option, none, some, List, [], ◌∷◌, str_eq, if◌then◌else◌}
use clusterprobe.Go.Int64.{pos, quot, leb_ℤ}
use clusterprobe.Go.Errors.{GoError, err, error_text, is_canceled, wrapped, unrecoverable, msg}
use clusterprobe.Go.Json.{Payload, document, malformed}
use clusterprobe.Go.Action.{◌>>=◌, ◌>>◌, lift, pass, within}
use clusterprobe.Workload.Types.{
  ScenarioResponse, is_empty, cpu_burn, mem_alloc, db_write, db_read, mixed,
}
use clusterprobe.Workload.Params.{WorkResult, WorkloadParams}
use clusterprobe.Worker.Effects.{Env, M, Generator, run}
use clusterprobe.Worker.Reporting.{milliseconds, append_scenario_status, is_stopped, report_result}

abbrev pub Generators : Type 0 → Type 0
Generators W = List (String × Generator W)

unfoldable pub find_generator : {W : Type 0} → String → Generators W → Option (Generator W)
find_generator t [] = none
find_generator t ((k, g) ∷ gens) = if str_eq k t then some g else find_generator t gens

unfoldable pub build_generators :
    {W : Type 0} → (cpu mem write read mix : Generator W) → Generators W
build_generators cpu mem write read mix =
    (cpu_burn, cpu) ∷ (mem_alloc, mem) ∷ (db_write, write) ∷ (db_read, read) ∷ (mixed, mix) ∷ []

unfoldable pub params_of : ScenarioResponse → WorkloadParams
params_of scenario =
    let alloc = quot scenario.profile.payload_size_bytes 1048576 in
    record {
      scenario_id = scenario.id;
      workload_type = scenario.profile.workload_type;
      duration_ms = milliseconds scenario.profile.duration;
      alloc_mb = if leb_ℤ alloc (pos 0) then pos 1 else alloc;
      batch_size = scenario.profile.concurrency;
      read_lookback_ms = pos 300000;
      mixed_profile = record {
        cpu_percent = pos 0;
        db_write_percent = pos 0;
        db_read_percent = pos 0;
      };
    }

abbrev pub terminal_status : WorkResult → String
terminal_status result = if is_empty result.error then "completed" else "failed"

module _ {W : Type 0} (env : Env W) where
  -- What follows the report.
  unfoldable pub conclude : ScenarioResponse → WorkResult → M W (Unit {0})
  conclude scenario result = do
    within "report result" (report_result env scenario result)
    stopped ← is_stopped env scenario.id
    if stopped
        then pass tt
        else within ("mark scenario " <> terminal_status result)
            (append_scenario_status env scenario (terminal_status result))

  -- What follows `gen.Execute`. A canceled run asks for the status again.
  unfoldable pub settle : ScenarioResponse → WorkResult × Option GoError → M W (Unit {0})
  settle scenario (result, none) = conclude scenario result
  settle scenario (result, some e) =
      let rest = conclude scenario (record result { error = error_text e }) in
      if is_canceled e
      then (do stopped ← is_stopped env scenario.id; if stopped then pass tt else rest)
      else rest

  unfoldable pub run_scenario : ScenarioResponse → Generator W → M W (Unit {0})
  unfolding run
  run_scenario scenario gen = do
    stopped ← is_stopped env scenario.id
    if stopped then pass tt else do
      within "mark scenario running" (append_scenario_status env scenario "running")
      out ← run env gen (params_of scenario)
      settle scenario out

  unfoldable pub start_scenario : Option (Generator W) → ScenarioResponse → M W (Unit {0})
  start_scenario none scenario =
      lift (err (unrecoverable (msg ("unknown workload type: " <> scenario.profile.workload_type))))
  start_scenario (some gen) scenario = run_scenario scenario gen

  unfoldable pub handle_message : Generators W → Payload ScenarioResponse → M W (Unit {0})
  unfolding start_scenario
  handle_message gens (malformed text) =
      lift (err (unrecoverable (wrapped "decode scenario" (msg text))))
  handle_message gens (document scenario) =
      start_scenario (find_generator scenario.profile.workload_type gens) scenario
