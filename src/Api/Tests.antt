-- ===== src/Api/Tests.antt =====
-- cmd/api/handlers at concrete inputs.
use clusterprobe.Api.Logging.{
  Op, logging, wrapped_op, write_header, write, plain_ops, nothing, logging-plain_ops,
}
use clusterprobe.Go.Numbers.{digits, atoi}
use clusterprobe.Api.Status
use clusterprobe.Api.Status.{report_status, metrics_snapshot}
use clusterprobe.Api.Startup.{trim_leading_slash, mongo_database_from_uri}
use clusterprobe.Prelude.{
  List, String, str_eq, if◌then◌else◌, ℕ, ◌+◌, true, none, some, [], ◌∷◌, ◌≡◌, refl,
}
use clusterprobe.Go.Int64.{pos}
use clusterprobe.Go.Errors.{ok, err, msg}
use clusterprobe.Go.Json.{document}
use clusterprobe.Workload.Types.{
  ScenarioRequest, ScenarioResponse, LoadProfile, validate_request, validate_profile,
  is_workload_type,
}
use clusterprobe.Api.Http.{Connection, goes, fails}
use clusterprobe.Api.Scenarios.{Env, State, Row, create_scenario, stop_scenario}
use clusterprobe.Api.Scenarios.Creating.{
  Creates, Stops, create_scenario-Creates, stop_scenario-Stops,
}

abbrev burn : LoadProfile
burn = record {
  rps = pos 10;
  duration = pos 30000000000;
  payload_size_bytes = pos 0;
  concurrency = pos 2;
  target_queue = "workload.low";
  workload_type = "cpu_burn";
}

abbrev ask : ScenarioRequest
ask = record { name = "burn"; profile = burn; stop_on_error = true }

abbrev queued : ScenarioResponse
queued = record { id = ""; name = "burn"; profile = burn; status = "queued"; created_at = 0 }

abbrev row : Row
row = record { scenario_id = "s1"; payload = document queued; created = 12 }

-- Every call succeeds but the publication.
abbrev no_broker : Env ℕ
no_broker = record {
  insert = λ id p w. (none, w);
  list_latest = λ w. (ok (record { rows = ok row ∷ []; after = none }), w);
  latest = λ id w. (ok row, w);
  events = λ id w. (ok (record { rows = []; after = none }), w);
  publish = λ x key p w. (some (msg "rabbitmq channel not available"), w);
  now = λ w. (77, w);
  new_id = λ w. ("s1", w + 1);
}

abbrev quiet : State ℕ
quiet = record { world = 0; trace = [] }

unpublished : (create_scenario no_broker (document ask) quiet).0 ≡ fails 502 "publish scenario"
unfolding create_scenario validate_request validate_profile is_workload_type
unpublished = refl

create_scenario-Creates_example :
    Creates ask
      (create_scenario no_broker (document ask) quiet).0
      (create_scenario no_broker (document ask) quiet).1.trace
create_scenario-Creates_example = create_scenario-Creates no_broker ask 0

stop_scenario-Stops_example :
    Stops "s1" (stop_scenario no_broker "s1" quiet).0 (stop_scenario no_broker "s1" quiet).1.trace
stop_scenario-Stops_example = stop_scenario-Stops no_broker "s1" 0

-- The connection breaks while the body is sent.
abbrev broken : Connection ScenarioResponse
broken = record { encodes = λ a. none; accepts = λ b. some (msg "broken pipe") }

-- A store that fails and a Redis that knows one counter.
abbrev one_counter : Status.Env ℕ ℕ
one_counter = record {
  scenario_counts = λ w. (err (msg "down"), w);
  latest_snapshot = λ w. (err (msg "no rows"), w);
  redis_get = λ key w. (if str_eq key "scenarios.running" then ok "12" else ok "many", w);
  now = λ w. (7, w);
}

counters_of_redis : report_status one_counter 0 ≡ (
  goes (
    200,
    record {
      status = "ok";
      time = 7;
      scenarios_running = pos 12;
      scenarios_completed = pos 0;
      chaos_running = pos 0;
    },
  ),
  0,
)
unfolding report_status Status.scenario_counts Status.redis_counter Status.counter_value
    Status.status_key atoi digits
counters_of_redis = refl

no_snapshot : metrics_snapshot one_counter 0 ≡ (fails 404 "no metrics snapshot", 0)
unfolding metrics_snapshot
no_snapshot = refl

named_database : mongo_database_from_uri (λ uri. ok "/load") "mongodb://db/load" ≡ "load"
unfolding mongo_database_from_uri trim_leading_slash
named_database = refl

default_database : mongo_database_from_uri (λ uri. ok "/") "mongodb://db/" ≡ "clusterprobe"
unfolding mongo_database_from_uri
default_database = refl

-- A reply of 200 whose body could not be encoded, with the error document after it.
abbrev unencoded : List (Op String)
unencoded = write_header 200 ∷ write_header 500 ∷ write "{\"error\":\"encode json\"}" ∷ []

logged_other : (logging true unencoded).status ≡ 500
unfolding logging wrapped_op
logged_other = refl

got_first : (logging true unencoded).inner.status ≡ some 200
unfolding logging wrapped_op
got_first = refl

logging-plain_ops_example :
    logging true unencoded ≡ record { inner = plain_ops unencoded nothing; status = 500 }
logging-plain_ops_example = logging-plain_ops unencoded
