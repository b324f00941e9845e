-- ===== src/Api/Startup.antt =====
-- The connections that cmd/api/main.go makes when it starts. `url.Parse` and `redis.ParseURL` are
-- parameters; the attempts are those of Db.Connect and Worker.Startup, which has the same loop for the
-- producer as cmd/api.
use Prim.Native.Char.{code}
use clusterprobe.Prelude.{String, Bool, ◌||◌, str_eq, ◌==◌, if◌then◌else◌}
use clusterprobe.Go.Errors.{Result, ok, err, msg}
use clusterprobe.Go.Action.{Action, ◌>>=◌, lift, within}
use clusterprobe.Go.Strings.{codes, starts_with}
use clusterprobe.Workload.Types.{is_empty}
use clusterprobe.Db.Connect.{Env, State, Handle, new_redis}
use clusterprobe.Worker.Startup

-- `strings.HasPrefix`
abbrev pub has_prefix : String → String → Bool
has_prefix s prefix = starts_with (codes prefix) (codes s)

-- `newRedisClient`; `parse_url` gives the address.
unfoldable pub new_redis_client :
    {W : Type 0} → Env W → (parse_url : String → Result String) → String → Action (State W) Handle
new_redis_client env parse_url dsn =
    if has_prefix dsn "redis://" || has_prefix dsn "rediss://"
    then (do
      addr ← within "parse redis url" (lift (parse_url dsn))
      within "redis client" (new_redis env addr))
    else within "redis client" (new_redis env dsn)

-- `strings.TrimPrefix(path, "/")`
unfoldable pub trim_leading_slash : String → String
trim_leading_slash String.[] = String.[]
trim_leading_slash (String.◌∷◌ c s) = if code c == b'/' then s else String.◌∷◌ c s

abbrev database_of : Result String → String
database_of (err e) = "clusterprobe"
database_of (ok path) =
    if is_empty path || str_eq path "/" then "clusterprobe" else trim_leading_slash path

-- `mongoDatabaseFromURI`; `path_of` gives the path of a URL.
unfoldable pub mongo_database_from_uri : (path_of : String → Result String) → String → String
mongo_database_from_uri path_of uri = database_of (path_of uri)

-- The producer of cmd/api.
unfoldable pub new_api_producer :
    {W : Type 0} → Startup.Env W → Startup.State W → Result Startup.Handle × Startup.State W
new_api_producer env =
    Startup.retry env.wait "producer" env.new_producer Startup.startup_retry_attempts (msg "")
