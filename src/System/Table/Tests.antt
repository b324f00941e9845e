-- ===== src/System/Table/Tests.antt =====
-- The table at a concrete scenario that runs, is stopped, and is taken up again by a second worker.
use clusterprobe.Prelude.{true, false, none, [], ◌∷◌, ◌≡◌, refl, arith}
use clusterprobe.Go.Int64.{pos}
use clusterprobe.Go.Errors.{ok, err, msg}
use clusterprobe.Go.Json.{document}
use clusterprobe.Workload.Types.{ScenarioResponse}
use clusterprobe.Api.Http.{goes}
use clusterprobe.Api.Scenarios.{stop_scenario, stopped_id}
use clusterprobe.Worker.Reporting.{is_stopped, append_scenario_status}
use clusterprobe.System.Table.{Table, Others, IsTable, api_env, worker_env, latest}
use clusterprobe.System.Table.Stopping.{after_stop, stop_scenario-is_stopped, stop_scenario_lost}

abbrev queued : ScenarioResponse
queued = record {
  id = "s1";
  name = "burn";
  profile = record {
    rps = pos 10;
    duration = pos 30000000000;
    payload_size_bytes = pos 0;
    concurrency = pos 2;
    target_queue = "workload.high";
    workload_type = "cpu_burn";
  };
  status = "queued";
  created_at = 5;
}

abbrev others : Others
others = record {
  listing = λ t. err (msg "no rows");
  events = λ id t. err (msg "no rows");
  publish_scenario = λ exchange key p. none;
  publish_result = λ exchange key p. none;
  insert_result = λ p. none;
  increment = λ key. none;
  now = λ t. t.clock;
  new_id = λ t. "s2";
}

abbrev table : Table
table = record {
  entries =
      record { serial = 1; scenario_id = "s1"; payload = document queued; created_at = 50 } ∷ [];
  next_serial = 2;
  clock = 60;
}

table-IsTable : IsTable table
table-IsTable = (record { numbered = omega arith; past = omega arith }, tt)

stopped :
    (stop_scenario (api_env others) "s1" (record { world = table; trace = [] })).0
    ≡ goes (200, record queued { status = "stopped"; created_at = 60 })
unfolding stop_scenario api_env latest stopped_id
stopped = refl

stop_scenario-is_stopped_example :
    (is_stopped
      (worker_env others)
      "s1"
      (record { world = after_stop others "s1" table; trace = [] })).0
    ≡ ok true
stop_scenario-is_stopped_example =
    stop_scenario-is_stopped others "s1" table 200
      (record queued { status = "stopped"; created_at = 60 }) table-IsTable stopped

appended :
    (append_scenario_status
      (worker_env others)
      queued
      "running"
      (record { world = after_stop others "s1" table; trace = [] })).0
    ≡ ok tt
unfolding append_scenario_status worker_env
appended = refl

stop_scenario_lost_example :
    (is_stopped
      (worker_env others)
      "s1"
      (append_scenario_status
        (worker_env others)
        queued
        "running"
        (record { world = after_stop others "s1" table; trace = [] })).1).0
    ≡ ok false
stop_scenario_lost_example = stop_scenario_lost others queued table [] table-IsTable appended
