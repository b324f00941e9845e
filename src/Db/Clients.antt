-- ===== src/Db/Clients.antt =====
-- The operations of the clients of internal/db: each calls the driver within a span. The driver's
-- calls are the arguments; the state keeps the spans that have ended, newest first.
use clusterprobe.Prelude.{String, Option, none, some, List, [], ◌∷◌}
use clusterprobe.Go.Errors.{GoError, Result, ok, err, wrapped}

pub record Span : Type 0 where
  pub name : String
  pub attributes : List (String × String)
  -- the recorded error with the text of the status
  pub failure : Option (GoError × String)

pub record Traced (W : Type 0) : Type 0 where
  pub world : W
  pub spans : List Span

-- What an operation says: the name and attributes of its span, the text of the status of a failed
-- span, and the label of its error.
pub record Operation : Type 0 where
  pub name : String
  pub attributes : List (String × String)
  pub status : String
  pub label : String

abbrev pub Driver : Type 0 → Type 0 → Type 0
Driver W A = W → Result A × W

abbrev failure_of : {A : Type 0} → String → Result A → Option (GoError × String)
failure_of status (ok a) = none
failure_of status (err e) = some (e, status)

abbrev labelled : {A : Type 0} → String → Result A → Result A
labelled label (ok a) = ok a
labelled label (err e) = err (wrapped label e)

abbrev pub postgres_operation : (operation sql status label : String) → Operation
postgres_operation operation sql status label = record {
  name = operation;
  attributes = ("db.system", "postgresql") ∷ ("db.statement", sql) ∷ [];
  status = status;
  label = label;
}

abbrev pub redis_operation : (operation command status label : String) → Operation
redis_operation operation command status label = record {
  name = operation;
  attributes = ("db.system", "redis") ∷ ("db.operation", command) ∷ [];
  status = status;
  label = label;
}

abbrev pub mongo_operation : (operation database collection status label : String) → Operation
mongo_operation operation database collection status label = record {
  name = operation;
  attributes =
      ("db.system", "mongodb") ∷ ("db.name", database) ∷ ("db.mongodb.collection", collection) ∷ [];
  status = status;
  label = label;
}

module _ {W : Type 0} {A : Type 0} where
  unfoldable pub traced : Operation → Driver W A → Traced W → Result A × Traced W
  traced op call s =
      let (r, w) = call s.world in
      (
        labelled op.label r,
        record {
          world = w;
          spans =
              record {
                name = op.name;
                attributes = op.attributes;
                failure = failure_of op.status r;
              }
              ∷ s.spans;
        },
      )

  -- Without a span.
  unfoldable pub untraced : String → Driver W A → Traced W → Result A × Traced W
  untraced label call s = let (r, w) = call s.world in (labelled label r, record s { world = w })

  -- postgres.go

  unfoldable pub postgres_ping : Driver W A → Traced W → Result A × Traced W
  unfolding untraced
  postgres_ping = untraced "postgres ping"

  unfoldable pub postgres_exec : (sql : String) → Driver W A → Traced W → Result A × Traced W
  unfolding traced
  postgres_exec sql = traced (postgres_operation "postgres.exec" sql "exec failed" "postgres exec")

  unfoldable pub postgres_query : (sql : String) → Driver W A → Traced W → Result A × Traced W
  unfolding traced
  postgres_query sql =
      traced (postgres_operation "postgres.query" sql "query failed" "postgres query")

  -- Its span ends before the row is scanned, so that no failure is seen.
  unfoldable pub postgres_query_row : (sql : String) → Driver W A → Traced W → Result A × Traced W
  postgres_query_row sql call s =
      let (r, w) = call s.world in
      (
        r,
        record {
          world = w;
          spans =
              record {
                name = "postgres.query_row";
                attributes = ("db.system", "postgresql") ∷ ("db.statement", sql) ∷ [];
                failure = none;
              }
              ∷ s.spans;
        },
      )

  -- redis.go

  unfoldable pub redis_set : Driver W A → Traced W → Result A × Traced W
  unfolding traced
  redis_set = traced (redis_operation "redis.set" "SET" "set failed" "redis set")

  unfoldable pub redis_get : Driver W A → Traced W → Result A × Traced W
  unfolding traced
  redis_get = traced (redis_operation "redis.get" "GET" "get failed" "redis get")

  unfoldable pub redis_del : Driver W A → Traced W → Result A × Traced W
  unfolding traced
  redis_del = traced (redis_operation "redis.del" "DEL" "del failed" "redis del")

  unfoldable pub redis_incr : Driver W A → Traced W → Result A × Traced W
  unfolding traced
  redis_incr = traced (redis_operation "redis.incr" "INCR" "incr failed" "redis incr")

  unfoldable pub redis_expire : Driver W A → Traced W → Result A × Traced W
  unfolding traced
  redis_expire = traced (redis_operation "redis.expire" "EXPIRE" "expire failed" "redis expire")

  unfoldable pub redis_publish : Driver W A → Traced W → Result A × Traced W
  unfolding traced
  redis_publish =
      traced (redis_operation "redis.publish" "PUBLISH" "publish failed" "redis publish")

  unfoldable pub redis_close : Driver W A → Traced W → Result A × Traced W
  unfolding untraced
  redis_close = untraced "redis close"

  -- mongo.go

  unfoldable pub mongo_insert_one :
      (database : String) → (collection : String) → Driver W A → Traced W → Result A × Traced W
  unfolding traced
  mongo_insert_one database collection = traced (
      mongo_operation "mongo.insert_one" database collection "insert one failed" "mongo insert one")

  unfoldable pub mongo_insert_many :
      (database : String) → (collection : String) → Driver W A → Traced W → Result A × Traced W
  unfolding traced
  mongo_insert_many database collection = traced (
      mongo_operation "mongo.insert_many" database collection "insert many failed"
        "mongo insert many")

  unfoldable pub mongo_find :
      (database : String) → (collection : String) → Driver W A → Traced W → Result A × Traced W
  unfolding traced
  mongo_find database collection =
      traced (mongo_operation "mongo.find" database collection "find failed" "mongo find")

  unfoldable pub mongo_find_one :
      (database : String) → (collection : String) → Driver W A → Traced W → Result A × Traced W
  unfolding traced
  mongo_find_one database collection =
      traced
        (mongo_operation "mongo.find_one" database collection "find one failed" "mongo find one")

  unfoldable pub mongo_update_one :
      (database : String) → (collection : String) → Driver W A → Traced W → Result A × Traced W
  unfolding traced
  mongo_update_one database collection = traced (
      mongo_operation "mongo.update_one" database collection "update one failed" "mongo update one")

  unfoldable pub mongo_delete_one :
      (database : String) → (collection : String) → Driver W A → Traced W → Result A × Traced W
  unfolding traced
  mongo_delete_one database collection = traced (
      mongo_operation "mongo.delete_one" database collection "delete one failed" "mongo delete one")

  unfoldable pub mongo_close : Driver W A → Traced W → Result A × Traced W
  unfolding untraced
  mongo_close = untraced "mongo disconnect"

-- `Subscribe`: a subscription whose first message fails is closed again.
module _ {W : Type 0} {A : Type 0} where
  abbrev or_closed : (A → W → W) → A → Option GoError × W → Result A × W
  or_closed close sub (none, w) = (ok sub, w)
  or_closed close sub (some e, w) = (err e, close sub w)

  unfoldable pub redis_subscribe :
      (subscribe : W → A × W) (receive : A → W → Option GoError × W) (close : A → W → W)
      → Traced W
      → Result A × Traced W
  unfolding traced
  redis_subscribe subscribe receive close =
      traced (redis_operation "redis.subscribe" "SUBSCRIBE" "subscribe failed" "redis subscribe")
        (λ w. let (sub, w1) = subscribe w in or_closed close sub (receive sub w1))
