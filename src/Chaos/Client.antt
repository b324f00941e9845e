-- ===== src/Chaos/Client.antt =====
-- `ChaosClient` of internal/chaos/client.go. Go's order of iteration over the map of resources is not
-- specified, so the loops take the resources in an order that is an argument.
pub mod Lookup
use clusterprobe.Prelude.{
  ℕ, String, ◌<>◌, Bool, true, false, Option, none, some, List, [], ◌∷◌, ◌++◌, str_eq,
  if◌then◌else◌,
}
use clusterprobe.Go.Errors.{GoError, Result, ok, err, msg, wrapped, fail_if}
use clusterprobe.Go.Action.{Action, ◌>>=◌, ◌>>◌, lift, pass, within}
use clusterprobe.Workload.Types.{Time, is_empty}
use clusterprobe.Chaos.Types.{ExperimentSpec, ExperimentStatus, Object}
use clusterprobe.Chaos.Phases.{Parsers, status_from_object_at}

-- `chaosGVRs`: the kinds with their resources.
abbrev pub chaos_gvrs : List (String × String)
chaos_gvrs =
    ("PodChaos", "podchaos")
    ∷ ("NetworkChaos", "networkchaos")
    ∷ ("IOChaos", "iochaos")
    ∷ ("StressChaos", "stresschaos")
    ∷ ("TimeChaos", "timechaos")
    ∷ []

unfoldable pub find_gvr : String → List (String × String) → Option String
find_gvr kind [] = none
find_gvr kind ((k, resource) ∷ gvrs) = if str_eq k kind then some resource else find_gvr kind gvrs

-- What the API server answers about one object: it is there, it is not found, or the call failed.
pub data Answer (A : Type 0) : Type 0 where
  found : A → Answer A
  missing : Answer A
  failed : GoError → Answer A

-- The dynamic client; calls on a resource in a namespace.
pub record Env (W S : Type 0) : Type 0 where
  pub create : (resource namespace : String) → (kind name : String) → S → W → Result String × W
  pub get : (resource namespace id : String) → W → Answer Object × W
  pub delete : (resource namespace id : String) → W → Answer (Unit {0}) × W
  pub list : (resource namespace : String) → W → Result (List Object) × W
  pub now : W → Time × W

module _ {W S : Type 0} (parsers : Parsers) (env : Env W S) (namespace : String) where
  abbrev chosen_namespace : String → String
  chosen_namespace given = if is_empty given then namespace else given

  abbrev required : {A : Type 0} → String → Option A → Result A
  required text none = err (msg text)
  required text (some a) = ok a

  unfoldable pub apply : ExperimentSpec S → Action W String
  apply spec = do
    lift (fail_if (is_empty spec.name) (msg "experiment name is required"))
    lift (fail_if (is_empty spec.kind) (msg "experiment kind is required"))
    body ← lift (required "experiment spec is required" spec.spec)
    resource ←
        lift (required ("unsupported chaos kind " <> spec.kind) (find_gvr spec.kind chaos_gvrs))
    within "create chaos experiment"
        (env.create resource (chosen_namespace spec.namespace) spec.kind spec.name body)

  -- `statusFromObject`, and the kind of the resource.
  pub status_now : String → Object → Action W ExperimentStatus
  status_now kind obj w =
      let (t, w') = env.now w in
      (ok (record (status_from_object_at parsers obj t) { kind = kind }), w')

  abbrev after_get :
      String → Answer Object × W → Action W ExperimentStatus → Result ExperimentStatus × W
  after_get kind (found obj, w) rest = status_now kind obj w
  after_get kind (missing, w) rest = rest w
  after_get kind (failed e, w) rest = (err (wrapped "get chaos experiment" e), w)

  unfoldable pub status_loop : List (String × String) → String → Action W ExperimentStatus
  status_loop [] id w = (err (msg ("experiment " <> id <> " not found")), w)
  status_loop ((kind, resource) ∷ gvrs) id w =
      after_get kind (env.get resource namespace id w) (status_loop gvrs id)

  unfoldable pub status : List (String × String) → String → Action W ExperimentStatus
  status order id =
      if is_empty id then lift (err (msg "experiment id is required")) else status_loop order id

  abbrev after_delete : Answer (Unit {0}) × W → Action W (Unit {0}) → Result (Unit {0}) × W
  after_delete (found u, w) rest = (ok tt, w)
  after_delete (missing, w) rest = rest w
  after_delete (failed e, w) rest = (err (wrapped "delete chaos experiment" e), w)

  unfoldable pub delete_loop : List (String × String) → String → Action W (Unit {0})
  delete_loop [] id w = (err (msg ("experiment " <> id <> " not found")), w)
  delete_loop ((kind, resource) ∷ gvrs) id w =
      after_delete (env.delete resource namespace id w) (delete_loop gvrs id)

  unfoldable pub delete : List (String × String) → String → Action W (Unit {0})
  delete order id =
      if is_empty id then lift (err (msg "experiment id is required")) else delete_loop order id

  pub statuses : String → List Object → Action W (List ExperimentStatus)
  statuses kind [] = pass []
  statuses kind (obj ∷ objs) = do
    s ← status_now kind obj
    rest ← statuses kind objs
    pass (s ∷ rest)

  unfoldable pub list : List (String × String) → Action W (List ExperimentStatus)
  list [] = pass []
  list ((kind, resource) ∷ gvrs) = do
    objs ← within "list chaos experiments" (env.list resource namespace)
    here ← statuses kind objs
    rest ← list gvrs
    pass (here ++ rest)
