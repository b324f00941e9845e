-- ===== src/Api/Wiring/Documents.antt =====
-- The adapters of cmd/api/main.go between the chaos handlers and the MongoDB client, and the
-- environment of the handlers that `buildRouter` makes. The chaos client is a parameter, as it is an
-- interface of the handlers.
use clusterprobe.Prelude.{String, none, some, Option, List, [], ◌∷◌, map, ◌≡◌, arith}
use clusterprobe.Go.Errors.{GoError, Result, ok, err, wrapped}
use clusterprobe.Go.Json.{document}
use clusterprobe.Workload.Types.{ChaosExperimentRequest, ChaosExperimentResponse, Time}
use clusterprobe.Chaos.Types.{ExperimentSpec, ExperimentStatus}
use clusterprobe.Db.Clients.{
  Traced, Driver, mongo_insert_one, mongo_find, mongo_update_one, mongo_delete_one,
}
use clusterprobe.Worker.Wiring.{failure, relabelled}
use clusterprobe.Api.Http.{goes}
use clusterprobe.Api.Experiments.Specs.{Fields}
use clusterprobe.Api.Experiments.{Env, Experiment, Cursor, create_experiment}

-- `mongoCursor`

unfoldable pub cursor_decode : {A : Type 0} → Result A → Result A
cursor_decode r = relabelled "mongo decode" r

unfoldable pub cursor_err : Option GoError → Option GoError
cursor_err none = none
cursor_err (some e) = some (wrapped "mongo cursor err" e)

module _ {W : Type 0} {A : Type 0} where
  -- `mongoAdapter`

  unfoldable pub mongo_adapter_insert_one :
      (database collection : String) → Driver W A → Traced W → Option GoError × Traced W
  mongo_adapter_insert_one database collection call s =
      let (r, s') = mongo_insert_one database collection call s in (failure "mongo insert" r, s')

  unfoldable pub mongo_adapter_find :
      (database collection : String) → Driver W A → Traced W → Result A × Traced W
  mongo_adapter_find database collection call s =
      let (r, s') = mongo_find database collection call s in (relabelled "mongo find" r, s')

  unfoldable pub mongo_adapter_update_one :
      (database collection : String) → Driver W A → Traced W → Option GoError × Traced W
  mongo_adapter_update_one database collection call s =
      let (r, s') = mongo_update_one database collection call s in (failure "mongo update" r, s')

  unfoldable pub mongo_adapter_delete_one :
      (database collection : String) → Driver W A → Traced W → Option GoError × Traced W
  mongo_adapter_delete_one database collection call s =
      let (r, s') = mongo_delete_one database collection call s in (failure "mongo delete" r, s')

-- `chaosAPI` of the handlers.
pub record ChaosApi (V : Type 0) : Type 0 where
  pub apply : ExperimentSpec Fields → V → Result String × V
  pub status : String → V → Result ExperimentStatus × V
  pub delete : String → V → Option GoError × V
  pub list : V → Result (List ExperimentStatus) × V

-- The calls of the MongoDB library, without the results that the source drops; a filter is the id.
pub record Drivers (V : Type 0) : Type 0 where
  pub insert_one : Experiment → V → Result (Unit {0}) × V
  pub find_all : V → Result Cursor × V
  pub find_by_id : String → V → Result Cursor × V
  pub set_status : (id status : String) → V → Result (Unit {0}) × V
  pub delete_by_id : String → V → Result (Unit {0}) × V
  pub clock : V → Time × V

abbrev pub chaos_collection : String
chaos_collection = "chaos_experiments"

abbrev adapted : Result Cursor → Result Cursor
adapted (ok c) =
    ok (record { documents = map cursor_decode c.documents; after = cursor_err c.after })
adapted (err e) = err e

module _ {V : Type 0} where
  abbrev aside : {B : Type 0} → (V → B × V) → Traced V → B × Traced V
  aside call s = let (b, w) = call s.world in (b, record s { world = w })

  abbrev cursor_of : (database : String) → Driver V Cursor → Traced V → Result Cursor × Traced V
  cursor_of database call s =
      let (r, s') = mongo_adapter_find database chaos_collection call s in (adapted r, s')

  -- The document store and the chaos client that `buildRouter` gives the chaos handlers.
  unfoldable pub wire : (database : String) → ChaosApi V → Drivers V → Env (Traced V)
  wire database chaos drivers = record {
    apply = λ spec s. aside (chaos.apply spec) s;
    status = λ id s. aside (chaos.status id) s;
    delete = λ id s. aside (chaos.delete id) s;
    live = λ s. aside chaos.list s;
    insert = λ x s. mongo_adapter_insert_one database chaos_collection (drivers.insert_one x) s;
    find_all = λ s. cursor_of database drivers.find_all s;
    find_one = λ id s. cursor_of database (drivers.find_by_id id) s;
    update_status = λ id status s.
        mongo_adapter_update_one database chaos_collection (drivers.set_status id status) s;
    remove = λ id s. mongo_adapter_delete_one database chaos_collection (drivers.delete_by_id id) s;
    now = λ s. aside drivers.clock s;
  }

  -- An experiment that is answered with 202 was inserted within one span, which names the database
  -- and the collection and records no failure; no other call of the database was made.
  pub wire-create_experiment :
      (database : String) (chaos : ChaosApi V) (drivers : Drivers V) (req : ChaosExperimentRequest)
      (s : Traced V) (resp : ChaosExperimentResponse)
      → (create_experiment
          (wire database chaos drivers)
          (document req)
          (record { world = s; trace = [] })).0
        ≡ goes (202, resp)
      → (create_experiment
          (wire database chaos drivers)
          (document req)
          (record { world = s; trace = [] })).1.world.spans
        ≡ record {
          name = "mongo.insert_one";
          attributes =
              ("db.system", "mongodb")
              ∷ ("db.name", database)
              ∷ ("db.mongodb.collection", chaos_collection)
              ∷ [];
          failure = none;
        }
          ∷ s.spans
  unfolding create_experiment wire mongo_adapter_insert_one mongo_insert_one
  wire-create_experiment database chaos drivers req s resp h = grind arith
