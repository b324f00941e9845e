-- ===== src/Worker/Wiring/Tests.antt =====
-- The worker's adapters at concrete inputs: libraries that answer every call with an error.
use clusterprobe.Prelude.{ℕ, false, none, some, [], ◌≡◌, refl}
use clusterprobe.Go.Int64.{pos}
use clusterprobe.Go.Errors.{err, msg, canceled, as_unrecoverable}
use clusterprobe.Go.Json.{document}
use clusterprobe.Workload.Types.{ScenarioResponse}
use clusterprobe.Worker.Effects.{State, Generator}
use clusterprobe.Worker.Handler.{handle_message, build_generators}
use clusterprobe.Worker.Poison.{is_for_good, is_poison}
use clusterprobe.Worker.Wiring.{Drivers, Wired, wire, IsForeign, wire-is_for_good}

abbrev failing : Drivers ℕ
failing = record {
  pool_exec = λ q w. (err (msg "closed pool"), w);
  pool_query_row = λ id w. (err canceled, w);
  redis_incr = λ key w. (err (msg "i/o timeout"), w);
  broker = record {
    dial = λ w. (err (msg "connection refused"), w);
    open_channel = λ conn w. (err (msg "closed"), w);
    close_conn = λ conn w. (none, w);
    close_channel = λ ch w. (none, w);
    declare = λ ch d w. (some (msg "closed"), w);
    publish = λ ch x key m w. (some (msg "closed"), w);
    qos = λ ch n w. (some (msg "closed"), w);
    consume = λ ch queue w. (some (msg "closed"), w);
    ack = λ d w. (some (msg "closed"), w);
    nack = λ d again w. (some (msg "closed"), w);
    wait = λ d w. (false, w);
  };
  inject = λ headers. headers;
  encoded = λ body. "{}";
  clock = λ w. (7, w);
}

failing-IsForeign : IsForeign failing
unfolding as_unrecoverable
failing-IsForeign = record {
  foreign_exec = λ q w. refl;
  foreign_query = λ id w. refl;
  foreign_incr = λ key w. refl;
  foreign_publish = λ ch x key m w. refl;
}

abbrev busy : Generator (Wired ℕ)
busy params w = ((record { ops = pos 1000; duration = pos 30; error = "" }, none), w)

abbrev burn : ScenarioResponse
burn = record {
  id = "s1";
  name = "burn";
  profile = record {
    rps = pos 10;
    duration = pos 30000000000;
    payload_size_bytes = pos 0;
    concurrency = pos 2;
    target_queue = "workload.high";
    workload_type = "cpu_burn";
  };
  status = "queued";
  created_at = 5;
}

abbrev at_start : State (Wired ℕ)
at_start = record {
  world = record {
    world = 0;
    spans = [];
    link = record { conn = none; channel = none };
    calls = [];
  };
  trace = [];
}

wire-is_for_good_example :
    is_for_good
      (handle_message
        (wire failing)
        (build_generators busy busy busy busy busy)
        (document burn)
        at_start).0
    ≡ is_poison (build_generators busy busy busy busy busy) (document burn)
wire-is_for_good_example =
    wire-is_for_good failing (build_generators busy busy busy busy busy) (document burn) at_start
      failing-IsForeign
