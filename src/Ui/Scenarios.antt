-- ===== src/Ui/Scenarios.antt =====
-- cmd/ui/handlers/scenarios.go.
pub mod Submitting
use clusterprobe.Prelude.{String, Bool, true, false, not, Option, none, some, List, if◌then◌else◌}
use clusterprobe.Go.Int64.{ℤ}
use clusterprobe.Go.Errors.{GoError, Result, ok, err, error_text, ◌>>=◌, ◌>>◌}
use clusterprobe.Workload.Types.{ScenarioRequest, ScenarioResponse, is_empty}
use clusterprobe.Api.Http.{no_reply}
use clusterprobe.Ui.Views.{build_scenario_view, build_scenario_views, is_not_found_error}
use clusterprobe.Ui.Forms.{parse_int_field, parse_duration_seconds}
use clusterprobe.Ui.Pages.{
  Env, State, Answer, Page, scenario_list, scenario_form, scenario_detail, scenario_events,
  scenario_row, unavailable, not_found, did_create_scenario, did_stop_scenario, http_error,
  redirect, render_status, asked, called, or_error,
}

abbrev listed : {W : Type 0} → Env W → Bool → Result (List ScenarioResponse) → Answer
listed env success (err e) = render_status env 502 (unavailable "Scenarios unavailable")
listed env success (ok l) = render_status env 200 (scenario_list (build_scenario_views l) success)

-- The request of the form, whose values are a function of their fields.
unfoldable pub request_of : (String → String) → Result ScenarioRequest
request_of form = do
  rps ← parse_int_field (form "rps") "rps"
  payload_size ← parse_int_field (form "payload_size") "payload_size"
  concurrency ← parse_int_field (form "concurrency") "concurrency"
  duration ← parse_duration_seconds (form "duration")
  ok (record {
    name = form "name";
    profile = record {
      rps = rps;
      duration = duration;
      payload_size_bytes = payload_size;
      concurrency = concurrency;
      target_queue = form "target_queue";
      workload_type = form "workload_type";
    };
    stop_on_error = false;
  })

module _ {W : Type 0} (env : Env W) where
  -- `Root`
  unfoldable pub root : State W → Answer × State W
  root s = (redirect 302 "/scenarios", s)

  -- `ListScenarios`, with its query parameter `success`.
  unfoldable pub scenarios : String → State W → Answer × State W
  scenarios success s =
      let (r, s1) = asked env.list_scenarios s in (listed env (not (is_empty success)) r, s1)

  -- `NewScenario`
  unfoldable pub scenarios_new : State W → Answer × State W
  scenarios_new s = (render_status env 200 scenario_form, s)

  with_id : String → (State W → Answer × State W) → State W → Answer × State W
  with_id id k s = if is_empty id then (http_error 400 "missing id" no_reply, s) else k s

  missing_scenario : GoError → Answer
  missing_scenario e =
      if is_not_found_error e
      then render_status env 404 (not_found "Scenario not found")
      else http_error 502 "failed to load scenario" no_reply

  with_events :
      String → ScenarioResponse → (List ScenarioResponse → Page) → State W → Answer × State W
  with_events id scenario show s =
      or_error (asked (env.list_scenario_events id) s) 502 "failed to load scenario events"
        (λ events s1. (render_status env 200 (show events), s1))

  found_scenario : String → Result ScenarioResponse × State W → Answer × State W
  unfolding missing_scenario with_events
  found_scenario id (err e, s) = (missing_scenario e, s)
  found_scenario id (ok scenario, s) =
      with_events id scenario
        (λ events. scenario_detail (build_scenario_view scenario) (build_scenario_views events)) s

  -- `ScenarioDetail`
  unfoldable pub scenarios_detail : String → State W → Answer × State W
  unfolding with_id found_scenario
  scenarios_detail id = with_id id (λ s. found_scenario id (asked (env.get_scenario id) s))

  -- `ScenarioEvents`
  unfoldable pub scenarios_events : String → State W → Answer × State W
  unfolding with_id with_events
  scenarios_events id = with_id id (λ s.
      or_error (asked (env.get_scenario id) s) 502 "failed to load scenario" (λ scenario.
        with_events id scenario
          (λ events. scenario_events (build_scenario_view scenario) (build_scenario_views events))))

  submitted : Result ScenarioRequest → State W → Answer × State W
  submitted (err e) s = (http_error 400 (error_text e) no_reply, s)
  submitted (ok req) s =
      or_error (called (did_create_scenario req) (env.create_scenario req) s) 502
        "failed to create scenario" (λ resp s1. (redirect 303 "/scenarios?success=1", s1))

  -- `CreateScenario`; `parsed` is what `ParseForm` gives.
  unfoldable pub scenarios_create :
      (parsed : Option GoError) (form : String → String) → State W → Answer × State W
  unfolding submitted
  scenarios_create (some e) form s = (http_error 400 "invalid form" no_reply, s)
  scenarios_create none form s = submitted (request_of form) s

  -- `ScenarioRow`
  unfoldable pub scenarios_row : String → State W → Answer × State W
  unfolding with_id
  scenarios_row id = with_id id (λ s.
      or_error (asked (env.get_scenario id) s) 502 "failed to load scenario"
        (λ scenario s1. (render_status env 200 (scenario_row (build_scenario_view scenario)), s1)))

  -- `StopScenario`
  unfoldable pub scenarios_stop : String → State W → Answer × State W
  unfolding with_id
  scenarios_stop id = with_id id (λ s.
      or_error (called (did_stop_scenario id) (env.stop_scenario id) s) 502
        "failed to stop scenario"
        (λ scenario s1. (render_status env 200 (scenario_row (build_scenario_view scenario)), s1)))
