-- ===== src/Config.antt =====
-- internal/config/config.go. The environment is a function; an unset variable is the empty text.
pub mod Loading
mod Tests
use clusterprobe.Prelude.{
  String, ◌<>◌, Bool, true, false, Option, none, some, List, [], ◌∷◌, ◌++◌, if◌then◌else◌,
}
use clusterprobe.Go.Int64.{ℤ, pos, leb_ℤ}
use clusterprobe.Go.Errors.{GoError, Result, ok, err, msg, wrapped, fail_if, ◌>>=◌, ◌>>◌}
use clusterprobe.Go.Strings.{codes}
use clusterprobe.Go.Text.{trim, join}
use clusterprobe.Go.Numbers.{atoi}
use clusterprobe.Workload.Types.{is_empty}

pub record Config : Type 0 where
  pub postgres_dsn : String
  pub redis_dsn : String
  pub mongo_dsn : String
  pub rabbitmq_url : String
  pub otlp_endpoint : String
  pub api_listen_addr : String
  pub ui_listen_addr : String
  pub chaos_listen_addr : String
  pub worker_concurrency : ℤ
  pub log_level : String

-- The keys that `Load` asks for as text, in its order.
abbrev pub text_keys : List String
text_keys =
    "CP_POSTGRES_DSN" ∷ "CP_REDIS_DSN" ∷ "CP_MONGO_DSN" ∷ "CP_RABBITMQ_URL" ∷ "CP_OTEL_ENDPOINT"
    ∷ "CP_API_LISTEN_ADDR" ∷ "CP_UI_LISTEN_ADDR" ∷ "CP_CHAOS_LISTEN_ADDR" ∷ "CP_LOG_LEVEL" ∷ []

abbrev pub concurrency_key : String
concurrency_key = "CP_WORKER_CONCURRENCY"

abbrev pub all_keys : List String
all_keys = text_keys ++ concurrency_key ∷ []

unfoldable pub validate : Config → Result (Unit {0})
validate c =
    fail_if (leb_ℤ c.worker_concurrency (pos 0))
      (msg "CP_WORKER_CONCURRENCY must be greater than zero")

-- `atoi_error` is the error that `strconv.Atoi` returns for a text that it refuses.
module _ (atoi_error : String → GoError) (getenv : String → String) where
  abbrev pub setting : String → String
  setting key = trim (getenv key)

  -- What `requireString` appends to `missing` for each key.
  unfoldable pub missing_among : List String → List String
  missing_among [] = []
  missing_among (key ∷ keys) =
      if is_empty (setting key) then key ∷ missing_among keys else missing_among keys

  abbrev parsed : String → Option ℤ → Result ℤ
  parsed key none = err (wrapped (key <> " must be an integer") (atoi_error (setting key)))
  parsed key (some n) = ok n

  -- `requireInt`, without its part of `missing`.
  unfoldable pub require_int : String → Result ℤ
  require_int key =
      if is_empty (setting key) then ok (pos 0) else parsed key (atoi (codes (setting key)))

  unfoldable pub config_of : ℤ → Config
  config_of n = record {
    postgres_dsn = setting "CP_POSTGRES_DSN";
    redis_dsn = setting "CP_REDIS_DSN";
    mongo_dsn = setting "CP_MONGO_DSN";
    rabbitmq_url = setting "CP_RABBITMQ_URL";
    otlp_endpoint = setting "CP_OTEL_ENDPOINT";
    api_listen_addr = setting "CP_API_LISTEN_ADDR";
    ui_listen_addr = setting "CP_UI_LISTEN_ADDR";
    chaos_listen_addr = setting "CP_CHAOS_LISTEN_ADDR";
    worker_concurrency = n;
    log_level = setting "CP_LOG_LEVEL";
  }

  abbrev refuse_missing : List String → Result (Unit {0})
  refuse_missing [] = ok tt
  refuse_missing (key ∷ keys) =
      err (msg ("missing required configuration: " <> join ", " (key ∷ keys)))

  unfoldable pub load : Result Config
  unfolding validate
  load = do
    n ← require_int concurrency_key
    refuse_missing (missing_among all_keys)
    validate (config_of n)
    ok (config_of n)
