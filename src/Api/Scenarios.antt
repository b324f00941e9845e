-- ===== src/Api/Scenarios.antt =====
-- cmd/api/handlers/scenarios.go.
pub mod Creating
pub mod Reading
use clusterprobe.Prelude.{
  ℕ, String, Bool, true, false, Option, none, some, List, [], ◌∷◌, ◌++◌, if◌then◌else◌, ◌==◌,
  str_eq,
}
use clusterprobe.Go.Errors.{GoError, Result, ok, err, msg, of_error}
use clusterprobe.Go.Json.{Payload, decode, encode}
use clusterprobe.Workload.Types.{
  ScenarioRequest, ScenarioResponse, Time, validate_request, is_empty,
}
use clusterprobe.Api.Http.{
  Handler, Outcome, goes, fails, ◌>>=◌, ◌>>◌, reply, fail, or_fail, or_explain, decode_json,
}

-- A row of `scenario_events` as `Scan` returns it.
pub record Row : Type 0 where
  pub scenario_id : String
  pub payload : Payload ScenarioResponse
  pub created : Time

-- What a query gives: the results of scanning its rows, and `rows.Err()` after them.
pub record RowSet : Type 0 where
  pub rows : List (Result Row)
  pub after : Option GoError

-- The store, the publisher, the clock and the generator of ids.
pub record Env (W : Type 0) : Type 0 where
  pub insert : String → Payload ScenarioResponse → W → Option GoError × W
  pub list_latest : W → Result RowSet × W
  pub latest : String → W → Result Row × W
  pub events : String → W → Result RowSet × W
  pub publish : (exchange key : String) → Payload ScenarioResponse → W → Option GoError × W
  pub now : W → Time × W
  pub new_id : W → String × W

-- The calls that change something outside, newest first.
pub data Event : Type 0 where
  did_insert : String → Payload ScenarioResponse → Option GoError → Event
  did_publish : (exchange key : String) → Payload ScenarioResponse → Option GoError → Event

pub record State (W : Type 0) : Type 0 where
  pub world : W
  pub trace : List Event

abbrev pub scenarios_exchange : String
scenarios_exchange = "clusterprobe.events"

-- The ids and times that a row supplies to a document that lacks them.
unfoldable pub complete : Row → ScenarioResponse → ScenarioResponse
complete row s = record s {
  id = if is_empty s.id then row.scenario_id else s.id;
  created_at = if s.created_at == 0 then row.created else s.created_at;
}

-- The body of the loops over rows. The labels are those of the two handlers that have it.
unfoldable pub read_row : (scan decode : String) → Result Row → Outcome ScenarioResponse
read_row scan_text decode_text (err e) = fails 500 scan_text
read_row scan_text decode_text (ok row) = elim (decode row.payload) [
  | err e ↦ fails 500 decode_text
  | ok s ↦ goes (complete row s)
]

abbrev prepend :
    ScenarioResponse → Outcome (List ScenarioResponse) → Outcome (List ScenarioResponse)
prepend s (fails code text) = fails code text
prepend s (goes l) = goes (s ∷ l)

abbrev then_read :
    Outcome ScenarioResponse → Outcome (List ScenarioResponse) → Outcome (List ScenarioResponse)
then_read (fails code text) rest = fails code text
then_read (goes s) rest = prepend s rest

-- The loop and the test of `rows.Err()`.
unfoldable pub read_rows :
    (scan decode list : String)
    → List (Result Row)
    → Option GoError
    → Outcome (List ScenarioResponse)
unfolding read_row
read_rows scan_text decode_text list_text [] none = goes []
read_rows scan_text decode_text list_text [] (some e) = fails 500 list_text
read_rows scan_text decode_text list_text (r ∷ rows) after =
    then_read (read_row scan_text decode_text r)
      (read_rows scan_text decode_text list_text rows after)

module _ {W : Type 0} (env : Env W) where
  insert_row : String → Payload ScenarioResponse → State W → Result (Unit {0}) × State W
  insert_row id p s =
      let (e, w) = env.insert id p s.world in
      (of_error e, record { world = w; trace = did_insert id p e ∷ s.trace })

  publish :
      (exchange key : String) → Payload ScenarioResponse → State W → Result (Unit {0}) × State W
  publish exchange key p s =
      let (e, w) = env.publish exchange key p s.world in
      (of_error e, record { world = w; trace = did_publish exchange key p e ∷ s.trace })

  now : Handler (State W) Time
  now s = let (t, w) = env.now s.world in (goes t, record s { world = w })

  new_id : Handler (State W) String
  new_id s = let (id, w) = env.new_id s.world in (goes id, record s { world = w })

  latest : String → State W → Result Row × State W
  latest id s = let (r, w) = env.latest id s.world in (r, record s { world = w })

  list_latest : State W → Result RowSet × State W
  list_latest s = let (r, w) = env.list_latest s.world in (r, record s { world = w })

  events : String → State W → Result RowSet × State W
  events id s = let (r, w) = env.events id s.world in (r, record s { world = w })

  abbrev const_result : {A : Type 0} → Result A → State W → Result A × State W
  const_result r s = (r, s)

  abbrev settled : {A : Type 0} → Outcome A → Handler (State W) A
  settled o s = (o, s)

  unfoldable pub create_scenario :
      Payload ScenarioRequest → Handler (State W) (ℕ × ScenarioResponse)
  unfolding insert_row publish now new_id decode_json
  create_scenario body = do
    req ← or_explain 400 (decode_json body)
    or_explain 400 (validate_request req)
    id ← new_id
    created ← now
    let resp : ScenarioResponse = record {
      id = id;
      name = req.name;
      profile = req.profile;
      status = "queued";
      created_at = created;
    }
    payload ← or_fail 500 "marshal scenario" (const_result (encode created resp))
    or_fail 500 "store scenario" (insert_row resp.id payload)
    or_fail 502 "publish scenario" (publish scenarios_exchange req.profile.target_queue payload)
    reply (202, resp)

  unfoldable pub list_scenarios : Handler (State W) (ℕ × List ScenarioResponse)
  unfolding list_latest
  list_scenarios = do
    set ← or_fail 500 "list scenarios" list_latest
    responses ←
        settled (read_rows "scan scenario" "decode scenario" "list scenarios" set.rows set.after)
    reply (200, responses)

  unfoldable pub get_scenario : String → Handler (State W) (ℕ × ScenarioResponse)
  unfolding latest
  get_scenario id = if is_empty id then fail 400 "id is required" else do
    row ← or_fail 404 "scenario not found" (latest id)
    resp ← or_fail 500 "decode scenario" (const_result (decode row.payload))
    reply (200, complete row resp)

  unfoldable pub list_scenario_events : String → Handler (State W) (ℕ × List ScenarioResponse)
  unfolding events
  list_scenario_events id = if is_empty id then fail 400 "id is required" else do
    set ← or_fail 500 "list scenario events" (events id)
    responses ← settled (
        read_rows "scan scenario event" "decode scenario event" "list scenario events" set.rows
          set.after)
    elim responses [ [] ↦ fail 404 "scenario not found" | resp ∷ rest ↦ reply (200, resp ∷ rest) ]

  -- The id of the stopped document: its own, the row's, or that of the request.
  unfoldable pub stopped_id : String → Row → ScenarioResponse → String
  stopped_id id row s =
      let own = if is_empty s.id then row.scenario_id else s.id in if is_empty own then id else own

  unfoldable pub stop_scenario : String → Handler (State W) (ℕ × ScenarioResponse)
  unfolding latest insert_row publish now
  stop_scenario id = if is_empty id then fail 400 "id is required" else do
    row ← or_fail 404 "scenario not found" (latest id)
    current ← or_fail 500 "decode scenario" (const_result (decode row.payload))
    created ← now
    let resp : ScenarioResponse = record current {
      id = stopped_id id row current;
      status = "stopped";
      created_at = created;
    }
    payload ← or_fail 500 "marshal scenario" (const_result (encode created resp))
    or_fail 500 "store scenario" (insert_row id payload)
    or_fail 502 "publish stop" (publish scenarios_exchange "scenario.stop" payload)
    reply (200, resp)
