-- ===== src/System/Services/Tests.antt =====
-- The services at concrete inputs: a deployment that works, and one whose broker is down.
use clusterprobe.Prelude.{ℕ, String, Option, none, some, ◌≡◌, refl}
use clusterprobe.Go.Int64.{pos}
use clusterprobe.Go.Errors.{GoError, Result, ok, msg}
use clusterprobe.Config.{Config}
use clusterprobe.System.Services.{
  Call, new_producer, Env, api_main, exited, ended, api_body, load, attempt, acquire, serve,
  run_deferred,
}

abbrev config : Config
config = record {
  postgres_dsn = "postgres://db";
  redis_dsn = "redis://cache";
  mongo_dsn = "mongodb://docs/probe";
  rabbitmq_url = "amqp://mq";
  otlp_endpoint = "otel:4317";
  api_listen_addr = ":8080";
  ui_listen_addr = ":8081";
  chaos_listen_addr = ":8082";
  worker_concurrency = pos 4;
  log_level = "info";
}

abbrev no_broker : Call → Option GoError
no_broker (new_producer url) = some (msg "rabbitmq producer unavailable after retries")
no_broker _ = none

abbrev down : Env ℕ
down = record {
  load = λ w. (ok config, w);
  call = λ c w. (no_broker c, w);
  until_done = λ w. w;
  shutdown = λ w. (none, w);
  join_consumers = λ w. (none, w);
  run = λ d w. w;
}

abbrev path_of : String → Result String
path_of uri = ok "/probe"

api_exits :
    (api_main down path_of 0).0 ≡ exited 1 (msg "rabbitmq producer unavailable after retries")
unfolding api_main api_body load attempt acquire serve ended run_deferred
api_exits = refl
