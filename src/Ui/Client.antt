-- ===== src/Ui/Client.antt =====
-- cmd/ui/client.go: the API as the web pages call it over HTTP. The transport and the JSON package are
-- parameters; the state counts the response bodies that are open.
use Prim.Native.Char.{code}
use clusterprobe.Prelude.{
  ℕ, ◌+◌, ◌-◌, ◌≡◌, refl, arith, String, ◌<>◌, true, false, Option, none, some, List, ◌==◌, leb,
  if◌then◌else◌,
}
use clusterprobe.Go.Errors.{GoError, Result, ok, err, msg, wrapped}
use clusterprobe.Go.Text.{trim}
use clusterprobe.Workload.Types.{
  ScenarioRequest, ScenarioResponse, ChaosExperimentRequest, ChaosExperimentResponse, is_empty,
}

pub record Request (B : Type 0) : Type 0 where
  pub method : String
  pub url : String
  pub body : Option B
  pub content_type : Option String

-- `B` is the type of bodies.
pub record Response (B : Type 0) : Type 0 where
  pub status_code : ℕ
  -- the code with its text, such as "404 Not Found"
  pub status : String
  pub body : B

pub record Transport (W B : Type 0) : Type 0 where
  -- `http.NewRequestWithContext` and `client.Do`
  pub check_request : Request B → Option GoError
  pub send : Request B → W → Result (Response B) × W
  pub encode_scenario : ScenarioRequest → Result B
  pub encode_experiment : ChaosExperimentRequest → Result B
  pub decode_scenario : B → Result ScenarioResponse
  pub decode_scenarios : B → Result (List ScenarioResponse)
  pub decode_experiment : B → Result ChaosExperimentResponse
  pub decode_experiments : B → Result (List ChaosExperimentResponse)

pub record State (W : Type 0) : Type 0 where
  pub world : W
  pub open_bodies : ℕ

-- `strings.TrimSuffix(base, "/")`
unfoldable pub trim_slash : String → String
trim_slash String.[] = String.[]
trim_slash (String.◌∷◌ c String.[]) = if code c == b'/' then String.[] else String.◌∷◌ c String.[]
trim_slash (String.◌∷◌ c (String.◌∷◌ d s)) = String.◌∷◌ c (trim_slash (String.◌∷◌ d s))

-- The base URL that `newAPIClient` keeps.
unfoldable pub new_api_client : String → String
new_api_client base_url =
    let base = trim_slash (trim base_url) in if is_empty base then "http://localhost:8080" else base

module _ {W B : Type 0} (transport : Transport W B) (base_url : String) where
  unfoldable pub close_body : State W → State W
  close_body s = record s { open_bodies = s.open_bodies - 1 }

  -- What is made of a response, whose body is closed after it.
  read_response : {A : Type 0} → (B → Result A) → Response B → Result A
  read_response decode r = elim (leb 400 r.status_code) [
    | true ↦ err (msg ("api error: " <> r.status))
    | false ↦ elim (decode r.body) [ err e ↦ err (wrapped "decode response" e) | ok a ↦ ok a ]
  ]

  after_send : {A : Type 0} → (B → Result A) → Result (Response B) × W → ℕ → Result A × State W
  unfolding close_body read_response
  after_send decode (err e, w) n =
      (err (wrapped "request" e), record { world = w; open_bodies = n })
  after_send decode (ok r, w) n =
      (read_response decode r, close_body (record { world = w; open_bodies = n + 1 }))

  send_checked : {A : Type 0} → (B → Result A) → Request B → State W → Result A × State W
  unfolding after_send
  send_checked decode req s = elim (transport.check_request req) [
    | some e ↦ (err (wrapped "create request" e), s)
    | none ↦ after_send decode (transport.send req s.world) s.open_bodies
  ]

  request_with : (method path : String) → Option B → Request B
  request_with method path none = record {
    method = method;
    url = base_url <> path;
    body = none;
    content_type = none;
  }
  request_with method path (some body) = record {
    method = method;
    url = base_url <> path;
    body = some body;
    content_type = some "application/json";
  }

  -- `doJSON`, with the payload that is still to be encoded.
  unfoldable pub do_json :
      {A : Type 0}
      → (method path : String) → Option (Result B)
      → (B → Result A)
      → State W
      → Result A × State W
  unfolding send_checked request_with
  do_json method path none decode s = send_checked decode (request_with method path none) s
  do_json method path (some (err e)) decode s = (err (wrapped "encode payload" e), s)
  do_json method path (some (ok body)) decode s =
      send_checked decode (request_with method path (some body)) s

  unfoldable pub list_scenarios : State W → Result (List ScenarioResponse) × State W
  list_scenarios = do_json "GET" "/api/v1/scenarios" none transport.decode_scenarios

  unfoldable pub create_scenario : ScenarioRequest → State W → Result ScenarioResponse × State W
  create_scenario req =
      do_json "POST" "/api/v1/scenarios" (some (transport.encode_scenario req))
        transport.decode_scenario

  unfoldable pub get_scenario : String → State W → Result ScenarioResponse × State W
  get_scenario id = do_json "GET" ("/api/v1/scenarios/" <> id) none transport.decode_scenario

  unfoldable pub list_scenario_events : String → State W → Result (List ScenarioResponse) × State W
  list_scenario_events id =
      do_json "GET" ("/api/v1/scenarios/" <> (id <> "/events")) none transport.decode_scenarios

  unfoldable pub stop_scenario : String → State W → Result ScenarioResponse × State W
  stop_scenario id =
      do_json "PUT" ("/api/v1/scenarios/" <> (id <> "/stop")) none transport.decode_scenario

  unfoldable pub list_experiments : State W → Result (List ChaosExperimentResponse) × State W
  list_experiments = do_json "GET" "/api/v1/chaos/experiments" none transport.decode_experiments

  unfoldable pub create_experiment :
      ChaosExperimentRequest → State W → Result ChaosExperimentResponse × State W
  create_experiment req =
      do_json "POST" "/api/v1/chaos/experiments" (some (transport.encode_experiment req))
        transport.decode_experiment

  unfoldable pub get_experiment : String → State W → Result ChaosExperimentResponse × State W
  get_experiment id =
      do_json "GET" ("/api/v1/chaos/experiments/" <> id) none transport.decode_experiment

  -- Without a destination the body is not decoded.
  unfoldable pub delete_experiment : String → State W → Result (Unit {0}) × State W
  delete_experiment id = do_json "DELETE" ("/api/v1/chaos/experiments/" <> id) none (λ body. ok tt)

  unfoldable pub stream_of : Result (Response B) × W → ℕ → Result B × State W
  unfolding close_body
  stream_of (err e, w) n =
      (err (wrapped "logs stream request" e), record { world = w; open_bodies = n })
  stream_of (ok r, w) n =
      let s : State W = record { world = w; open_bodies = n + 1 } in
      elim (leb 400 r.status_code) [
        | true ↦ (err (msg ("logs stream status: " <> r.status)), close_body s)
        | false ↦ (ok r.body, s)
      ]

  -- `LogsStream`, which hands on the open body.
  unfoldable pub logs_stream : State W → Result B × State W
  unfolding stream_of request_with
  logs_stream s =
      let req = request_with "GET" "/api/v1/logs/stream" none in
      elim (transport.check_request req) [
        | some e ↦ (err (wrapped "create request" e), s)
        | none ↦ stream_of (transport.send req s.world) s.open_bodies
      ]

module _ {W B A : Type 0} (transport : Transport W B) (base_url : String)
    (decode : B → Result A) where
  after_send_closes :
      (x : Result (Response B) × W) (n : ℕ)
      → (after_send transport base_url decode x n).1.open_bodies ≡ n
  unfolding after_send close_body
  after_send_closes (err e, w) n = refl
  after_send_closes (ok r, w) n = omega arith

  send_checked_closes :
      (req : Request B) (s : State W)
      → (send_checked transport base_url decode req s).1.open_bodies ≡ s.open_bodies
  unfolding send_checked
  send_checked_closes req s =
      ground (arith, after_send_closes (transport.send req s.world) s.open_bodies)

  -- However the API answers, no body of a response is left open.
  do_json_closes :
      (method path : String) (payload : Option (Result B)) (s : State W)
      → (do_json transport base_url method path payload decode s).1.open_bodies ≡ s.open_bodies
  unfolding do_json
  do_json_closes method path none s = send_checked_closes _ s
  do_json_closes method path (some (err e)) s = refl
  do_json_closes method path (some (ok body)) s = send_checked_closes _ s
