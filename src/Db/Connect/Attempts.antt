-- ===== src/Db/Connect/Attempts.antt =====
-- How often a connection is tried, for how long, and what happens to the clients that do not answer.
use clusterprobe.Prelude.{
  ℕ, zero, suc, ◌+◌, ◌≤◌, ◌<◌, String, Option, List, [], ◌∷◌, ◌≡◌, refl, arith,
}
use clusterprobe.Go.Int64.{ℤ, pos, pos_part}
use clusterprobe.Go.Errors.{GoError, Result, ok, err}
use clusterprobe.Retry.{next_backoff, doubled, budget, next_backoff_nat}
use clusterprobe.Db.Connect.{
  Handle, Env, Event, State, did_open, did_close, did_wait, attempt, retry_from,
  connect_postgres_with_retry, connect_redis_with_retry, connect_mongo_with_retry, new_postgres,
  new_redis, new_mongo,
}

-- The clients that were opened, and those that were closed, newest first.
abbrev pub opened_in : List Event → List Handle
opened_in [] = []
opened_in (did_open (ok h) ∷ es) = h ∷ opened_in es
opened_in (did_open (err e) ∷ es) = opened_in es
opened_in (did_close h ∷ es) = opened_in es
opened_in (did_wait d ∷ es) = opened_in es

abbrev pub closed_in : List Event → List Handle
closed_in [] = []
closed_in (did_open r ∷ es) = closed_in es
closed_in (did_close h ∷ es) = h ∷ closed_in es
closed_in (did_wait d ∷ es) = closed_in es

abbrev pub attempts_in : List Event → ℕ
attempts_in [] = 0
attempts_in (did_open r ∷ es) = attempts_in es + 1
attempts_in (did_close h ∷ es) = attempts_in es
attempts_in (did_wait d ∷ es) = attempts_in es

-- The nanoseconds of all waits.
abbrev pub waited_in : List Event → ℕ
waited_in [] = 0
waited_in (did_open r ∷ es) = waited_in es
waited_in (did_close h ∷ es) = waited_in es
waited_in (did_wait d ∷ es) = waited_in es + pos_part d

-- The result's client, before the closed ones.
abbrev pub kept : Result Handle → List Handle → List Handle
kept (ok h) hs = h ∷ hs
kept (err e) hs = hs

-- What is left of a connection: only the client that it returns is open; and its cost.
pub record IsTidy {W : Type 0} (n t : ℕ) (r : Result Handle × State W) : Type 0 where
  pub kept_open : opened_in r.1.trace ≡ kept r.0 (closed_in r.1.trace)
  pub attempts : attempts_in r.1.trace ≤ n
  pub waits : waited_in r.1.trace ≤ t

-- The state after an attempt, the question for the context and the wait that follow it.
rest : {W : Type 0} → Env W → ℤ → State W → State W
rest env backoff s =
    let (r, s1) = attempt env s in
    let (c, w) = env.context_error s1.world in
    let (e, w2) = env.wait backoff w in record { world = w2; trace = did_wait backoff ∷ s1.trace }

module _ {W : Type 0} (env : Env W) (name : String) where
  retry_from-kept :
      (retries : ℕ) (backoff : ℤ) (s : State W)
      → opened_in s.trace ≡ closed_in s.trace
      → opened_in (retry_from env name retries backoff s).1.trace
        ≡ kept
            (retry_from env name retries backoff s).0
            (closed_in (retry_from env name retries backoff s).1.trace)
  unfolding retry_from attempt rest
  retry_from-kept zero backoff s h = ground arith
  retry_from-kept (suc retries) backoff s h =
      ground (arith, retry_from-kept retries (next_backoff backoff) (rest env backoff s))

  retry_from-waited :
      (retries b : ℕ) (s : State W)
      → b < 10000000000
      → (attempts_in (retry_from env name retries (pos b) s).1.trace
          ≤ attempts_in s.trace + retries + 1)
        × (waited_in (retry_from env name retries (pos b) s).1.trace
            ≤ waited_in s.trace + budget retries b)
  unfolding retry_from attempt rest
  retry_from-waited zero b s h = ground arith
  retry_from-waited (suc retries) b s h =
      ground
        (arith, next_backoff_nat b h, retry_from-waited retries (doubled b) (rest env (pos b) s))

  retry_from-IsTidy :
      (w : W)
      → IsTidy 10 31800000000
          (retry_from env name 9 (pos 200000000) (record { world = w; trace = [] }))
  retry_from-IsTidy w =
      let s : State W = record { world = w; trace = [] } in
      let b = retry_from-waited 9 200000000 s (omega arith) in
      record { kept_open = retry_from-kept 9 (pos 200000000) s refl; attempts = b.0; waits = b.1 }

module _ {W : Type 0} (env : Env W) (w : W) where
  new_postgres-IsTidy :
      (parse : String → Option GoError) (dsn : String) (max_conns : ℤ)
      → IsTidy 10 31800000000
          (new_postgres env parse dsn max_conns (record { world = w; trace = [] }))
  unfolding new_postgres connect_postgres_with_retry
  new_postgres-IsTidy parse dsn max_conns =
      let t = retry_from-IsTidy env "postgres" w in ground (arith, t.kept_open, t.attempts, t.waits)

  new_redis-IsTidy :
      (addr : String)
      → IsTidy 10 31800000000 (new_redis env addr (record { world = w; trace = [] }))
  unfolding new_redis connect_redis_with_retry
  new_redis-IsTidy addr =
      let t = retry_from-IsTidy env "redis" w in ground (arith, t.kept_open, t.attempts, t.waits)

  new_mongo-IsTidy :
      (uri database : String)
      → IsTidy 10 31800000000 (new_mongo env uri database (record { world = w; trace = [] }))
  unfolding new_mongo connect_mongo_with_retry
  new_mongo-IsTidy uri database =
      let t = retry_from-IsTidy env "mongo" w in ground (arith, t.kept_open, t.attempts, t.waits)

  -- `NewPostgres`, `NewRedis` and `NewMongo` make ten attempts at most, wait for 31.8 s at most in
  -- all, and close every client that they open but the one that they return.
  pub clients-IsTidy :
      (parse : String → Option GoError) (dsn addr uri database : String) (max_conns : ℤ)
      → IsTidy 10 31800000000
          (new_postgres env parse dsn max_conns (record { world = w; trace = [] }))
        × IsTidy 10 31800000000 (new_redis env addr (record { world = w; trace = [] }))
        × IsTidy 10 31800000000 (new_mongo env uri database (record { world = w; trace = [] }))
  clients-IsTidy parse dsn addr uri database max_conns = (
    new_postgres-IsTidy parse dsn max_conns,
    new_redis-IsTidy addr,
    new_mongo-IsTidy uri database,
  )
