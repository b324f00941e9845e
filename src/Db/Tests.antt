-- ===== src/Db/Tests.antt =====
-- internal/db at concrete inputs.
use clusterprobe.Prelude.{List, ℕ, ◌+◌, ◌≡◌, refl, Option, none, some, [], ◌∷◌, ◌==◌, if◌then◌else◌}
use clusterprobe.Go.Int64.{pos, ◌*ℤ◌}
use clusterprobe.Go.Errors.{GoError, ok, msg}
use clusterprobe.Go.Strings.{codes, is_space, trim_left, trim_space}
use clusterprobe.Go.Text.{trim, turn_onto, trim_start}
use clusterprobe.Retry.{next_backoff}
use clusterprobe.Db.Connect.{
  Env, attempt, retry_from, new_postgres, new_redis, new_mongo, connect_redis_with_retry,
}
use clusterprobe.Db.Connect.Attempts.{IsTidy, clients-IsTidy}
use clusterprobe.Db.Schema.{split_sql_statements, split_at, statements_of}
use clusterprobe.Db.Schema.Statements.{Piece}

-- The third client answers; the world counts the clients.
abbrev third : Env ℕ
third = record {
  open_client = λ w. (ok w, w + 1);
  ping = λ h w. (if h == 2 then none else some (msg "connection refused"), w);
  close_client = λ h w. w;
  context_error = λ w. (none, w);
  wait = λ d w. (none, w);
}

connected : (new_redis third "localhost" (record { world = 0; trace = [] })).0 ≡ ok 2
unfolding new_redis connect_redis_with_retry retry_from attempt next_backoff ◌*ℤ◌ trim turn_onto
    trim_start is_space
connected = refl

clients-IsTidy_example :
    IsTidy 10 31800000000
      (new_postgres third (λ dsn. none) "dsn" (pos 10) (record { world = 0; trace = [] }))
    × IsTidy 10 31800000000 (new_redis third "addr" (record { world = 0; trace = [] }))
    × IsTidy 10 31800000000 (new_mongo third "uri" "db" (record { world = 0; trace = [] }))
clients-IsTidy_example = clients-IsTidy third 0 (λ dsn. none) "dsn" "addr" "uri" "db" (pos 10)

two_statements : split_sql_statements (codes " A b;\n\n;C ;") ≡ codes "A b" ∷ codes "C" ∷ []
unfolding split_sql_statements split_at statements_of trim_space trim_left is_space
two_statements = refl

-- The first two statements of internal/db/schema/postgres.sql, as they are laid out there.

abbrev load_events : List ℕ
load_events =
    codes
      "CREATE TABLE IF NOT EXISTS load_events (\n    id BIGSERIAL PRIMARY KEY,\n    scenario_id TEXT NOT NULL,\n    payload JSONB NOT NULL,\n    created_at TIMESTAMPTZ NOT NULL DEFAULT NOW()\n)"

abbrev scenario_events : List ℕ
scenario_events =
    codes
      "CREATE TABLE IF NOT EXISTS scenario_events (\n    id BIGSERIAL PRIMARY KEY,\n    scenario_id TEXT NOT NULL,\n    payload JSONB NOT NULL,\n    created_at TIMESTAMPTZ NOT NULL DEFAULT NOW()\n)"

abbrev pieces : List Piece
pieces =
    record { space = []; statement = load_events }
    ∷ record { space = codes "\n\n"; statement = scenario_events }
    ∷ []

-- The first statement is executed, the second fails.
abbrev one_only : List ℕ → ℕ → Option GoError × ℕ
one_only s w = (if w == 0 then none else some (msg "syntax error"), w + 1)
