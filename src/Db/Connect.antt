-- ===== src/Db/Connect.antt =====
-- `connectPostgresWithRetry`, `connectRedisWithRetry` and `connectMongoWithRetry` of internal/db, and
-- the constructors that call them. The three loops have the same code; the driver's calls, the
-- context and the timer are functions over an unknown world, with a trace, newest first.
pub mod Attempts
use clusterprobe.Prelude.{
  ℕ, zero, suc, String, ◌<>◌, Bool, true, false, Option, none, some, List, [], ◌∷◌, ◌||◌,
  if◌then◌else◌,
}
use clusterprobe.Go.Int64.{ℤ, pos, ltb_ℤ, leb_ℤ, ◌*ℤ◌}
use clusterprobe.Go.Errors.{
  GoError, Result, ok, err, msg, wrapped, is_canceled, is_deadline_exceeded, fail_if, of_error,
}
use clusterprobe.Go.Action.{Action, ◌>>=◌, ◌>>◌, lift, pass, within}
use clusterprobe.Go.Text.{trim}
use clusterprobe.Retry.{next_backoff}
use clusterprobe.Workload.Types.{is_empty}

abbrev pub Handle : Type 0
Handle = ℕ

pub record Env (W : Type 0) : Type 0 where
  -- `pgxpool.NewWithConfig`, `redis.NewClient`, `mongo.Connect`
  pub open_client : W → Result Handle × W
  pub ping : Handle → W → Option GoError × W
  -- `Close` and `Disconnect`; their errors are dropped
  pub close_client : Handle → W → W
  -- `ctx.Err()`
  pub context_error : W → Option GoError × W
  -- the `select` on the context and a timer: the context's error, if it is done first
  pub wait : ℤ → W → Option GoError × W

pub data Event : Type 0 where
  did_open : Result Handle → Event
  did_close : Handle → Event
  did_wait : ℤ → Event

pub record State (W : Type 0) : Type 0 where
  pub world : W
  pub trace : List Event

abbrev ends : Option GoError → Bool
ends none = false
ends (some e) = is_canceled e || is_deadline_exceeded e

abbrev or_canceled : Option GoError → GoError
or_canceled none = msg ""
or_canceled (some e) = e

module _ {W : Type 0} (env : Env W) where
  close_client : Handle → State W → State W
  close_client h s = record { world = env.close_client h s.world; trace = did_close h ∷ s.trace }

  pinged : Handle → Option GoError → State W → Result Handle × State W
  unfolding close_client
  pinged h none s = (ok h, s)
  pinged h (some e) s = (err e, close_client h s)

  opened : Result Handle → State W → Result Handle × State W
  unfolding pinged
  opened (err e) s = (err e, s)
  opened (ok h) s = let (r, w) = env.ping h s.world in pinged h r (record s { world = w })

  -- One attempt. A client that does not answer is closed again.
  unfoldable pub attempt : State W → Result Handle × State W
  unfolding opened
  attempt s =
      let (r, w) = env.open_client s.world in
      opened r (record { world = w; trace = did_open r ∷ s.trace })

  after_wait :
      String
      → Option GoError × State W
      → (State W → Result Handle × State W)
      → Result Handle × State W
  after_wait name (some e, s) more = (err (wrapped (name <> " connect canceled") e), s)
  after_wait name (none, s) more = more s

  waited : ℤ → State W → Option GoError × State W
  waited d s =
      let (e, w) = env.wait d s.world in (e, record { world = w; trace = did_wait d ∷ s.trace })

  -- The loop. `retries` is the number of attempts that may follow the one at hand.
  after_attempt :
      String
      → ℤ
      → Result Handle × State W
      → Option (State W → Result Handle × State W)
      → Result Handle × State W
  unfolding after_wait waited
  after_attempt name backoff (ok h, s) more = (ok h, s)
  after_attempt name backoff (err e, s) more =
      let (c, w) = env.context_error s.world in
      let s' = record s { world = w } in
      elim (ends c) [
        | true ↦ (err (wrapped (name <> " connect canceled") (or_canceled c)), s')
        | false ↦ elim more [
          | none ↦ (err (wrapped (name <> " connect failed after retries") e), s')
          | some next ↦ after_wait name (waited backoff s') next
        ]
      ]

  unfoldable pub retry_from : String → ℕ → ℤ → State W → Result Handle × State W
  unfolding after_attempt
  retry_from name zero backoff s = after_attempt name backoff (attempt s) none
  retry_from name (suc retries) backoff s =
      after_attempt name backoff (attempt s) (some (retry_from name retries (next_backoff backoff)))

  unfoldable pub connect_postgres_with_retry : Action (State W) Handle
  connect_postgres_with_retry = retry_from "postgres" 9 (pos 200000000)

  unfoldable pub connect_redis_with_retry : Action (State W) Handle
  connect_redis_with_retry = retry_from "redis" 9 (pos 200000000)

  unfoldable pub connect_mongo_with_retry : Action (State W) Handle
  connect_mongo_with_retry = retry_from "mongo" 9 (pos 200000000)

  -- `NewPostgres`; `parse` is `pgxpool.ParseConfig`, up to its error.
  unfoldable pub new_postgres :
      (parse : String → Option GoError) (dsn : String) (max_conns : ℤ) → Action (State W) Handle
  new_postgres parse dsn max_conns = do
    lift (fail_if (is_empty (trim dsn)) (msg "postgres dsn is required"))
    lift (fail_if (leb_ℤ max_conns (pos 0)) (msg "postgres maxConns must be greater than zero"))
    within "parse postgres dsn" (lift (of_error (parse dsn)))
    connect_postgres_with_retry

  -- `NewRedis`
  unfoldable pub new_redis : (addr : String) → Action (State W) Handle
  new_redis addr = do
    lift (fail_if (is_empty (trim addr)) (msg "redis addr is required"))
    connect_redis_with_retry

  -- `NewMongo`
  unfoldable pub new_mongo : (uri database : String) → Action (State W) Handle
  new_mongo uri database = do
    lift (fail_if (is_empty (trim uri)) (msg "mongo uri is required"))
    lift (fail_if (is_empty (trim database)) (msg "mongo database is required"))
    connect_mongo_with_retry
