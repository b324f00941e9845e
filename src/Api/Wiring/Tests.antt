-- ===== src/Api/Wiring/Tests.antt =====
-- The API's adapters at concrete inputs: libraries that accept every call.
use clusterprobe.Prelude.{ℕ, ◌+◌, true, false, none, some, []}
use clusterprobe.Go.Int64.{pos}
use clusterprobe.Go.Errors.{ok, err, msg}
use clusterprobe.Workload.Types.{ScenarioRequest, ScenarioResponse}
use clusterprobe.Messaging.Broker
use clusterprobe.Worker.Wiring.{Wired}
use clusterprobe.Api.Wiring.{Drivers}

abbrev drivers : Drivers ℕ
drivers = record {
  pool_exec = λ sql id p w. (ok tt, w + 1);
  pool_query = λ sql arguments w. (err (msg "closed pool"), w);
  pool_query_row = λ sql id w. (err (msg "closed pool"), w);
  broker = record {
    dial = λ w. (ok w, w);
    open_channel = λ conn w. (ok w, w);
    close_conn = λ conn w. (none, w);
    close_channel = λ ch w. (none, w);
    declare = λ ch d w. (none, w);
    publish = λ ch x key m w. (none, w + 1);
    qos = λ ch n w. (none, w);
    consume = λ ch queue w. (none, w);
    ack = λ d w. (none, w);
    nack = λ d again w. (none, w);
    wait = λ d w. (false, w);
  };
  inject = λ headers. headers;
  encoded = λ p. "{}";
  clock = λ w. (77, w);
  uuid = λ w. ("s1", w + 1);
}

abbrev ask : ScenarioRequest
ask = record {
  name = "burn";
  profile = record {
    rps = pos 10;
    duration = pos 30000000000;
    payload_size_bytes = pos 0;
    concurrency = pos 2;
    target_queue = "workload.high";
    workload_type = "cpu_burn";
  };
  stop_on_error = true;
}

abbrev queued : ScenarioResponse
queued = record {
  id = "s1";
  name = "burn";
  profile = ask.profile;
  status = "queued";
  created_at = 77;
}

abbrev up : Wired ℕ
up = record { world = 0; spans = []; link = record { conn = some 1; channel = some 2 }; calls = [] }
