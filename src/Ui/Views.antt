-- ===== src/Ui/Views.antt =====
-- The views of cmd/ui/handlers/server.go.
use clusterprobe.Prelude.{String, Bool, ◌||◌, List, map, if◌then◌else◌}
use clusterprobe.Go.Errors.{GoError, error_text}
use clusterprobe.Go.Strings.{mentions}
use clusterprobe.Workload.Types.{ScenarioResponse, ChaosExperimentResponse}

pub record ScenarioView : Type 0 where
  pub scenario : ScenarioResponse
  pub status_class : String
  pub terminal : Bool

pub record ExperimentView : Type 0 where
  pub experiment : ChaosExperimentResponse
  pub status_class : String

unfoldable pub class_of_status : String → String
class_of_status status =
    if mentions status "error"
    then "error"
    else if mentions status "fail"
    then "error"
    else if mentions status "pending"
    then "warn"
    else if mentions status "stop"
    then "warn"
    else if mentions status "queue"
    then "warn"
    else if mentions status "running"
    then "success"
    else if mentions status "finish"
    then "success"
    else if mentions status "complete"
    then "success"
    else ""

unfoldable pub is_terminal_scenario_status : String → Bool
is_terminal_scenario_status status =
    mentions status "complete" || (mentions status "fail" || mentions status "stop")

unfoldable pub is_not_found_error : GoError → Bool
is_not_found_error e = mentions (error_text e) "404" || mentions (error_text e) "not found"

unfoldable pub build_scenario_view : ScenarioResponse → ScenarioView
build_scenario_view s = record {
  scenario = s;
  status_class = class_of_status s.status;
  terminal = is_terminal_scenario_status s.status;
}

abbrev pub build_scenario_views : List ScenarioResponse → List ScenarioView
build_scenario_views l = map build_scenario_view l

unfoldable pub build_experiment_view : ChaosExperimentResponse → ExperimentView
build_experiment_view e = record { experiment = e; status_class = class_of_status e.status }
