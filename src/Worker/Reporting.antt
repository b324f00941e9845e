-- ===== src/Worker/Reporting.antt =====
-- cmd/worker/reporting.go.
use clusterprobe.Prelude.{String, ◌<>◌, Bool, ◌==◌, if◌then◌else◌}
use clusterprobe.Go.Int64.{ℤ, quot}
use clusterprobe.Go.Json.{decode, encode}
use clusterprobe.Go.Strings.{codes, trim_space, equal_fold_ascii}
use clusterprobe.Go.Action.{◌>>=◌, ◌>>◌, lift, pass, within}
use clusterprobe.Workload.Types.{ScenarioResponse, is_empty}
use clusterprobe.Workload.Params.{WorkResult}
use clusterprobe.Worker.Effects.{
  Env, M, exec, query_latest, incr, publish, now, Snapshot, insert_scenario, insert_snapshot,
}

abbrev pub results_exchange : String
results_exchange = "clusterprobe.events"

unfoldable pub is_stopped_scenario_status : String → Bool
is_stopped_scenario_status status = equal_fold_ascii (trim_space (codes status)) (codes "stopped")

-- Duration.Milliseconds().
abbrev pub milliseconds : ℤ → ℤ
milliseconds d = quot d 1000000

module _ {W : Type 0} (env : Env W) where
  unfoldable pub append_scenario_status : ScenarioResponse → String → M W (Unit {0})
  unfolding exec now
  append_scenario_status scenario status = do
    created ← (if scenario.created_at == 0 then now env else pass scenario.created_at)
    let scenario' = record scenario { status = status; created_at = created }
    encoded ← within "marshal scenario status" (lift (encode created scenario'))
    within "insert scenario status" (exec env (insert_scenario scenario.id encoded))

  unfoldable pub latest_scenario_status : String → M W String
  unfolding query_latest
  latest_scenario_status id = do
    payload ← within "select latest scenario status" (query_latest env id)
    scenario ← within "decode latest scenario status" (lift (decode payload))
    pass scenario.status

  -- Whether the latest status is a stop, as `handleMessage` asks three times.
  unfoldable pub is_stopped : String → M W Bool
  unfolding latest_scenario_status
  is_stopped id = do
    status ← within "load latest scenario status" (latest_scenario_status id)
    pass (is_stopped_scenario_status status)

  unfoldable pub report_result : ScenarioResponse → WorkResult → M W (Unit {0})
  unfolding exec incr publish now
  report_result scenario result = do
    timestamp ← now env
    let snapshot : Snapshot = record {
      scenario_id = scenario.id;
      workload = scenario.profile.workload_type;
      ops = result.ops;
      duration_ms = milliseconds result.duration;
      error = result.error;
      timestamp = timestamp;
    }
    encoded ← within "marshal snapshot" (lift (encode timestamp snapshot))
    within "insert metrics snapshot" (exec env (insert_snapshot encoded))
    within "increment ops total" (incr env "cp:ops:total")
    within "increment ops by type" (incr env ("cp:ops:" <> scenario.profile.workload_type))
    (if is_empty result.error
        then pass tt
        else within "increment errors total" (incr env "cp:errors:total"))
    within "publish result" (publish env results_exchange ("results." <> scenario.id) encoded)
