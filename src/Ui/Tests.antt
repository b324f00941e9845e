-- ===== src/Ui/Tests.antt =====
-- cmd/ui/handlers at concrete inputs.
use clusterprobe.Go.Strings.{codes}
use clusterprobe.Ui.Streams.{
  has_return, safe_data, data_lines, stream_lines, sse_text, data_lines-sse_text,
}
use clusterprobe.Go.Text.{split_equals, trim_start, turn_onto, trim}
use clusterprobe.Prelude.{
  false, ℕ, ◌+◌, String, true, none, some, [], ◌∷◌, ◌≡◌, refl, str_eq, if◌then◌else◌,
}
use clusterprobe.Go.Int64.{pos, ◌*ℤ◌}
use clusterprobe.Go.Errors.{wrapped, error_text, ok, err, msg}
use clusterprobe.Go.Strings.{is_space, mentions, contains, starts_with, lower}
use clusterprobe.Go.Numbers.{atoi, digits}
use clusterprobe.Ui.Client.{trim_slash, new_api_client}
use clusterprobe.Ui.Views.{class_of_status, is_terminal_scenario_status, is_not_found_error}
use clusterprobe.Ui.Forms.{
  parse_int_field, put, add_parameters, parse_duration_seconds, parse_chaos_parameters, lines_of,
}
use clusterprobe.Ui.Pages.{http_error, Env, rendered}
use clusterprobe.Ui.Scenarios.{request_of, scenarios_create}
use clusterprobe.Ui.Scenarios.Submitting.{Submits, scenarios_create-Submits}

stopped_class : class_of_status "Stopped" ≡ "warn"
unfolding class_of_status mentions contains starts_with lower
stopped_class = refl

stopped_is_terminal : is_terminal_scenario_status "Stopped" ≡ true
unfolding is_terminal_scenario_status mentions contains starts_with lower
stopped_is_terminal = refl

missing_page : is_not_found_error (msg "unexpected status: 404") ≡ true
unfolding is_not_found_error mentions contains error_text starts_with lower
missing_page = refl

-- An API that is down looks like a missing scenario if the scenario's id has "404" in it.
down_or_missing :
    is_not_found_error (
      wrapped "request"
        (msg "Get \"http://api:8080/api/v1/scenarios/1404\": dial tcp: connection refused"))
    ≡ true
unfolding is_not_found_error mentions contains error_text starts_with lower
down_or_missing = refl

base_url : new_api_client " http://api:8080/ " ≡ "http://api:8080"
unfolding new_api_client trim_slash trim turn_onto trim_start is_space
base_url = refl

half_minute : parse_duration_seconds "30" ≡ ok (pos 30000000000)
unfolding parse_duration_seconds atoi digits ◌*ℤ◌
half_minute = refl

-- A duration of 584 years wraps around to 0.29 s.
wrapped_duration : parse_duration_seconds "18446744074" ≡ ok (pos 290448384)
unfolding parse_duration_seconds atoi digits ◌*ℤ◌
wrapped_duration = refl

read_parameters :
    parse_chaos_parameters " cpu = 2\n\nnote\nload=50=60\ncpu=4"
    ≡ ("cpu", "4") ∷ ("load", "50=60") ∷ []
unfolding parse_chaos_parameters add_parameters lines_of trim turn_onto trim_start is_space
    split_equals put
read_parameters = refl

abbrev refusing_api : Env ℕ
refusing_api = record {
  list_scenarios = λ w. (ok [], w);
  get_scenario = λ id w. (err (msg "404"), w);
  list_scenario_events = λ id w. (ok [], w);
  create_scenario = λ req w. (err (msg "bad gateway"), w + 1);
  stop_scenario = λ id w. (err (msg "404"), w);
  list_experiments = λ w. (ok [], w);
  create_experiment = λ req w. (err (msg "bad gateway"), w);
  get_experiment = λ id w. (err (msg "404"), w);
  delete_experiment = λ id w. (none, w);
  render = λ p. rendered;
}

abbrev burn_form : String → String
burn_form field =
    if str_eq field "name"
    then "burn"
    else if str_eq field "target_queue"
    then "workload.high"
    else if str_eq field "workload_type"
    then "cpu_burn"
    else "10"

burn_refused :
    (scenarios_create refusing_api none burn_form (record { world = 0; calls = [] })).0.status
    ≡ some 502
unfolding scenarios_create request_of parse_int_field atoi digits parse_duration_seconds http_error
burn_refused = refl

scenarios_create-Submits_example :
    Submits none burn_form
      (record { world = 0; calls = [] })
      (scenarios_create refusing_api none burn_form (record { world = 0; calls = [] }))
scenarios_create-Submits_example =
    scenarios_create-Submits refusing_api burn_form none (record { world = 0; calls = [] })

no_return : has_return (codes "<b>1</b>\n\n<b>2</b>") ≡ false
unfolding has_return
no_return = refl

data_lines-sse_text_example :
    data_lines (stream_lines (sse_text (codes "stats") (codes "<b>1</b>\n\n<b>2</b>")))
    ≡ stream_lines (codes "<b>1</b>\n\n<b>2</b>")
data_lines-sse_text_example = data_lines-sse_text (codes "<b>1</b>\n\n<b>2</b>") no_return

-- A carriage return in the data ends a data line, and what follows it is lost.
return_lost : data_lines (stream_lines (sse_text (codes "stats") (codes "a\rb"))) ≡ codes "a" ∷ []
unfolding stream_lines sse_text safe_data
return_lost = refl
