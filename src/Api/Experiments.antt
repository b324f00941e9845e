-- ===== src/Api/Experiments.antt =====
-- The handlers of cmd/api/handlers/chaos.go.
pub mod Specs
pub mod Badge
pub mod Changes
pub mod Supported
pub mod Listing
mod Tests
use clusterprobe.Prelude.{
  ℕ, String, Bool, Option, none, some, List, [], ◌∷◌, not, ◌||◌, str_eq, if◌then◌else◌,
}
use clusterprobe.Go.Errors.{GoError, Result, ok, err, of_error}
use clusterprobe.Go.Json.{Payload}
use clusterprobe.Workload.Types.{
  ChaosExperimentRequest, ChaosExperimentResponse, Config, Time, validate_chaos_request, is_empty,
}
use clusterprobe.Chaos.Types.{ExperimentSpec, ExperimentStatus}
use clusterprobe.Api.Http.{
  Handler, Outcome, goes, fails, ◌>>=◌, ◌>>◌, reply, fail, or_fail, or_explain, decode_json,
}
use clusterprobe.Api.Experiments.Badge.{render_status_badge}
use clusterprobe.Api.Experiments.Specs.{Fields, build_experiment_spec}

-- `chaosRecord`
pub record Experiment : Type 0 where
  pub id : String
  pub name : String
  pub scenario : String
  pub config : Config
  pub status : String
  pub created_at : Time

unfoldable pub to_response : Experiment → ChaosExperimentResponse
to_response e = record {
  id = e.id;
  name = e.name;
  scenario = e.scenario;
  config = e.config;
  status = e.status;
  created_at = e.created_at;
}

-- The body of a reply of `GetExperiment`.
pub data Page : Type 0 where
  json : ChaosExperimentResponse → Page
  html : String → Page

-- What a cursor gives: the documents, decoded or not, and its error after them.
pub record Cursor : Type 0 where
  pub documents : List (Result Experiment)
  pub after : Option GoError

-- The chaos client, the document store and the clock.
pub record Env (W : Type 0) : Type 0 where
  pub apply : ExperimentSpec Fields → W → Result String × W
  pub status : String → W → Result ExperimentStatus × W
  pub delete : String → W → Option GoError × W
  pub live : W → Result (List ExperimentStatus) × W
  pub insert : Experiment → W → Option GoError × W
  pub find_all : W → Result Cursor × W
  -- the filter is the id
  pub find_one : String → W → Result Cursor × W
  pub update_status : (id status : String) → W → Option GoError × W
  pub remove : String → W → Option GoError × W
  pub now : W → Time × W

-- The calls that change something outside, newest first.
pub data Event : Type 0 where
  did_apply : ExperimentSpec Fields → Result String → Event
  did_delete : String → Option GoError → Event
  did_insert : Experiment → Option GoError → Event
  did_update : (id status : String) → Option GoError → Event
  did_remove : String → Option GoError → Event

pub record State (W : Type 0) : Type 0 where
  pub world : W
  pub trace : List Event

-- The map of `liveStatusByID`: a later status replaces an earlier one under its id and its name.
unfoldable pub live_phase : String → List ExperimentStatus → Option String
live_phase id [] = none
live_phase id (s ∷ rest) =
    let later = live_phase id rest in
    elim later [
      | some phase ↦ some phase
      | none ↦
          if is_empty id
          then none
          else if str_eq s.id id || str_eq s.name id
          then some s.phase
          else none
    ]

abbrev or_none : Result (List ExperimentStatus) → List ExperimentStatus
or_none (ok l) = l
or_none (err e) = []

module _ {W : Type 0} (env : Env W) where
  apply : ExperimentSpec Fields → State W → Result String × State W
  apply spec s =
      let (r, w) = env.apply spec s.world in
      (r, record { world = w; trace = did_apply spec r ∷ s.trace })

  delete : String → State W → Result (Unit {0}) × State W
  delete id s =
      let (e, w) = env.delete id s.world in
      (of_error e, record { world = w; trace = did_delete id e ∷ s.trace })

  insert : Experiment → State W → Result (Unit {0}) × State W
  insert x s =
      let (e, w) = env.insert x s.world in
      (of_error e, record { world = w; trace = did_insert x e ∷ s.trace })

  remove : String → State W → Result (Unit {0}) × State W
  remove id s =
      let (e, w) = env.remove id s.world in
      (of_error e, record { world = w; trace = did_remove id e ∷ s.trace })

  status : String → State W → Result ExperimentStatus × State W
  status id s = let (r, w) = env.status id s.world in (r, record s { world = w })

  find_all : State W → Result Cursor × State W
  find_all s = let (r, w) = env.find_all s.world in (r, record s { world = w })

  live_statuses : Handler (State W) (List ExperimentStatus)
  live_statuses s = let (r, w) = env.live s.world in (goes (or_none r), record s { world = w })

  now : Handler (State W) Time
  now s = let (t, w) = env.now s.world in (goes t, record s { world = w })

  -- `persistChaosStatus`: the error is dropped.
  unfoldable pub persist_chaos_status : (id status : String) → Handler (State W) (Unit {0})
  persist_chaos_status id status s =
      if is_empty status
      then (goes tt, s)
      else let (e, w) = env.update_status id status s.world in
        (goes tt, record { world = w; trace = did_update id status e ∷ s.trace })

  first_document : Result Cursor → Option Experiment
  first_document (err e) = none
  first_document (ok cursor) = elim cursor.documents [
    | [] ↦ none
    | d ∷ rest ↦ elim d [ ok x ↦ some x | err e ↦ none ]
  ]

  unfoldable pub find_record : String → Handler (State W) (Option Experiment)
  unfolding first_document
  find_record id s =
      let (r, w) = env.find_one id s.world in (goes (first_document r), record s { world = w })

  unfoldable pub create_experiment :
      Payload ChaosExperimentRequest → Handler (State W) (ℕ × ChaosExperimentResponse)
  unfolding apply insert now decode_json
  create_experiment body = do
    req ← or_explain 400 (decode_json body)
    or_explain 400 (validate_chaos_request req)
    spec ← or_explain 400 (build_experiment_spec req)
    id ← or_fail 502 "apply chaos experiment" (apply spec)
    created ← now
    let x : Experiment = record {
      id = id;
      name = req.name;
      scenario = req.scenario;
      config = req.config;
      status = "pending";
      created_at = created;
    }
    or_fail 500 "store experiment" (insert x)
    reply (202, to_response x)

  -- The body of the loop of `ListExperiments` on a decoded document.
  unfoldable pub refresh :
      List ExperimentStatus → Experiment → Handler (State W) ChaosExperimentResponse
  refresh statuses x = elim (live_phase x.id statuses) [
    | none ↦ reply (to_response x)
    | some phase ↦ do
      persist_chaos_status x.id phase
      reply (to_response (record x { status = phase }))
  ]

  unfoldable pub refresh_all :
      List ExperimentStatus
      → Option GoError
      → List (Result Experiment)
      → Handler (State W) (List ChaosExperimentResponse)
  refresh_all statuses none [] = reply []
  refresh_all statuses (some e) [] = fail 500 "list experiments"
  refresh_all statuses after (err e ∷ rest) = fail 500 "decode experiment"
  refresh_all statuses after (ok x ∷ rest) = do
    r ← refresh statuses x
    others ← refresh_all statuses after rest
    reply (r ∷ others)

  unfoldable pub list_experiments : Handler (State W) (ℕ × List ChaosExperimentResponse)
  unfolding find_all live_statuses
  list_experiments = do
    statuses ← live_statuses
    cursor ← or_fail 500 "list experiments" find_all
    responses ← refresh_all statuses cursor.after cursor.documents
    reply (200, responses)

  -- The reply of `GetExperiment` from the live status and the stored record.
  unfoldable pub merged : ExperimentStatus → Option Experiment → ChaosExperimentResponse
  merged live none = record {
    id = live.id;
    name = live.name;
    scenario = "";
    config = [];
    status = live.phase;
    created_at = 0;
  }
  merged live (some x) = record {
    id = live.id;
    name = x.name;
    scenario = x.scenario;
    config = x.config;
    status = live.phase;
    created_at = x.created_at;
  }

  unfoldable pub store_change :
      String → ExperimentStatus → Option Experiment → Handler (State W) (Unit {0})
  store_change id live none = reply tt
  store_change id live (some x) =
      if is_empty live.phase
      then reply tt
      else if str_eq live.phase x.status
      then reply tt
      else persist_chaos_status id live.phase

  page_of : String → String → ChaosExperimentResponse → Page
  page_of view id r = if str_eq view "badge" then html (render_status_badge id r.status) else json r

  -- `GetExperiment`; `view` is the query parameter.
  unfoldable pub get_experiment : (view id : String) → Handler (State W) (ℕ × Page)
  unfolding status page_of
  get_experiment view id = if is_empty id then fail 400 "missing id" else do
    live ← or_fail 404 "experiment not found" (status id)
    stored ← find_record id
    store_change id live stored
    reply (200, page_of view id (merged live stored))

  -- The reply is the status 204 without a body.
  unfoldable pub delete_experiment : String → Handler (State W) ℕ
  unfolding delete remove
  delete_experiment id = if is_empty id then fail 400 "missing id" else do
    or_fail 502 "delete experiment" (delete id)
    or_fail 500 "delete experiment record" (remove id)
    reply 204
