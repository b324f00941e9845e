-- ===== src/System/Tests.antt =====
-- The services together at concrete inputs: services that accept every call.
use clusterprobe.Prelude.{ℕ, ◌+◌, true, false, none, some, [], ◌∷◌, ◌≡◌, refl, arith}
use clusterprobe.Go.Int64.{pos}
use clusterprobe.Go.Errors.{ok, err, msg}
use clusterprobe.Go.Json.{document}
use clusterprobe.Workload.Types.{
  ScenarioRequest, ScenarioResponse, validate_request, validate_profile, is_workload_type,
}
use clusterprobe.Api.Http.{goes}
use clusterprobe.Api.Scenarios.{create_scenario, scenarios_exchange, did_insert, did_publish}
use clusterprobe.Api.Scenarios
use clusterprobe.Worker.Effects.{Generator}
use clusterprobe.Worker.Effects
use clusterprobe.Worker.Handler.{build_generators, handle_message}
use clusterprobe.Worker.Poison.{IsPlain, is_for_good}
use clusterprobe.System.Delivery.{create_scenario-is_for_good}
use clusterprobe.Messaging.Broker
use clusterprobe.Messaging.Topology.{
  declare_topology, exchange_name, declare_on_channel, declare_queues, declare_queue, declare_on,
}
use clusterprobe.Messaging.Topology.Plan.{made}
use clusterprobe.Worker.Pool.{start_consumers, start_from, queue_picker, queues_of}
use clusterprobe.System.Routes.{IsRouted, bound_queues, declare_topology-IsRouted}

abbrev ask : ScenarioRequest
ask = record {
  name = "burn";
  profile = record {
    rps = pos 10;
    duration = pos 30000000000;
    payload_size_bytes = pos 0;
    concurrency = pos 2;
    target_queue = "workload.low";
    workload_type = "mixed";
  };
  stop_on_error = true;
}

abbrev queued : ScenarioResponse
queued = record {
  id = "s1";
  name = "burn";
  profile = ask.profile;
  status = "queued";
  created_at = 77;
}

abbrev api : Scenarios.Env ℕ
api = record {
  insert = λ id p w. (none, w);
  list_latest = λ w. (err (msg "no rows"), w);
  latest = λ id w. (err (msg "no rows"), w);
  events = λ id w. (err (msg "no rows"), w);
  publish = λ x key p w. (none, w);
  now = λ w. (77, w);
  new_id = λ w. ("s1", w + 1);
}

abbrev store : Effects.Env ℕ
store = record {
  exec = λ q w. (none, w);
  query_latest = λ id w. (ok (document queued), w);
  incr = λ key w. (none, w);
  publish = λ x key body w. (none, w);
  now = λ w. (78, w);
}

abbrev busy : Generator ℕ
busy params w = ((record { ops = pos 1000; duration = pos 30; error = "" }, none), w)

store-IsPlain : IsPlain store
store-IsPlain = record {
  plain_exec = λ q w. refl;
  plain_query = λ id w. refl;
  plain_incr = λ key w. refl;
  plain_publish = λ x key body w. refl;
}

created :
    (create_scenario api (document ask) (record { world = 0; trace = [] })).0 ≡ goes (202, queued)
unfolding create_scenario validate_request validate_profile is_workload_type
created = refl

create_scenario-is_for_good_example :
    ((create_scenario api (document ask) (record { world = 0; trace = [] })).1.trace
      ≡ did_publish scenarios_exchange "workload.low" (document queued) none
        ∷ did_insert "s1" (document queued) none
        ∷ [])
    × (is_for_good
          (handle_message store
            (build_generators busy busy busy busy busy)
            (document queued)
            (record { world = 0; trace = [] })).0
        ≡ false)
create_scenario-is_for_good_example =
    create_scenario-is_for_good api ask 0 queued store busy busy busy busy busy
      (record { world = 0; trace = [] }) store-IsPlain created

abbrev broker : Broker.Env ℕ
broker = record {
  dial = λ w. (ok w, w + 1);
  open_channel = λ conn w. (ok (conn + 100), w);
  close_conn = λ conn w. (none, w);
  close_channel = λ ch w. (none, w);
  declare = λ ch d w. (none, w);
  publish = λ ch x key m w. (none, w);
  qos = λ ch n w. (none, w);
  consume = λ ch queue w. (none, w);
  ack = λ d w. (none, w);
  nack = λ d again w. (none, w);
  wait = λ d w. (false, w);
}

declared :
    (declare_topology broker
      (record { conn = some 1; channel = some 2 })
      (record { world = 0; trace = [] })).0
    ≡ ok tt
unfolding declare_topology declare_on_channel declare_queues declare_queue declare_on
declared = refl

all_ready :
    (start_consumers queue_picker (λ w. (ok w, w + 1)) (λ started w. ([], w)) 3 0).ready ≡ true
unfolding start_consumers start_from
all_ready = refl

declare_topology-IsRouted_example :
    IsRouted
      (queues_of
        (start_consumers queue_picker (λ w. (ok w, w + 1)) (λ started w. ([], w)) 3 0).started)
      "workload.low"
      (bound_queues exchange_name "workload.low" (
        made
          (declare_topology broker
            (record { conn = some 1; channel = some 2 })
            (record { world = 0; trace = [] })).1.trace))
declare_topology-IsRouted_example =
    declare_topology-IsRouted broker (record { conn = some 1; channel = some 2 }) 2 0
      (λ w. (ok w, w + 1)) (λ started w. ([], w)) 3 0 "workload.low" refl declared (omega arith)
      all_ready
