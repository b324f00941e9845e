-- ===== src/Api/Scenarios/Creating.antt =====
-- What `CreateScenario` and `StopScenario` do on every path.
use clusterprobe.Prelude.{
  ℕ, String, true, none, some, List, [], ◌∷◌, ◌≡◌, ◌≢◌, ◌↔◌, refl, arith, ◌⊎◌,
}
use clusterprobe.Go.Errors.{ok}
use clusterprobe.Go.Json.{document}
use clusterprobe.Workload.Types.{ScenarioRequest, ScenarioResponse, validate_request}
use clusterprobe.Worker.Watcher.{sees_stop}
use clusterprobe.Worker.Reporting.{is_stopped_scenario_status}
use clusterprobe.Go.Strings.{trim_space, equal_fold_ascii, is_space, fold_ascii, trim_left}
use clusterprobe.Api.Http.{Outcome, goes, fails}
use clusterprobe.Api.Http.Replies.{code_of}
use clusterprobe.Api.Scenarios.{
  Env, State, Event, did_insert, did_publish, create_scenario, stop_scenario, scenarios_exchange,
}

-- How `CreateScenario` may end, with the calls that it made, newest first: the document of the reply
-- was stored and then published to the target queue; or nothing was done; or the row could not be
-- stored; or the row stands and no worker was told.
abbrev pub Creates : ScenarioRequest → Outcome (ℕ × ScenarioResponse) → List Event → Type 0
Creates req (goes (code, resp)) (did_publish x key p none ∷ did_insert id q none ∷ []) =
    (code ≡ 202)
    × (p ≡ document resp)
    × (q ≡ document resp)
    × (id ≡ resp.id)
    × (x ≡ scenarios_exchange)
    × (key ≡ req.profile.target_queue)
    × (resp.name ≡ req.name)
    × (resp.profile ≡ req.profile)
    × (resp.status ≡ "queued")
Creates req (fails code text) [] = (code ≡ 400) ⊎ (code ≡ 500)
Creates req (fails code text) (did_insert id q (some e) ∷ []) = code ≡ 500
Creates req (fails code text) (did_publish x key p (some e) ∷ did_insert id q none ∷ []) =
    (code ≡ 502) × (p ≡ q) × (key ≡ req.profile.target_queue)
Creates _ _ _ = ⊥

-- How `StopScenario` may end: the stopped document was stored and then published; or nothing was
-- done; or the row could not be stored; or the row stands and the stop was not published.
abbrev pub Stops : String → Outcome (ℕ × ScenarioResponse) → List Event → Type 0
Stops id (goes (code, resp)) (did_publish x key p none ∷ did_insert row q none ∷ []) =
    (code ≡ 200)
    × (p ≡ document resp)
    × (q ≡ document resp)
    × (row ≡ id)
    × (x ≡ scenarios_exchange)
    × (key ≡ "scenario.stop")
    × (sees_stop (ok q) ≡ true)
Stops id (fails code text) [] = (code ≡ 400) ⊎ ((code ≡ 404) ⊎ (code ≡ 500))
Stops id (fails code text) (did_insert row q (some e) ∷ []) = code ≡ 500
Stops id (fails code text) (did_publish x key p (some e) ∷ did_insert row q none ∷ []) =
    (code ≡ 502) × (row ≡ id) × (sees_stop (ok q) ≡ true)
Stops _ _ _ = ⊥

pub stopped_seen : is_stopped_scenario_status "stopped" ≡ true
unfolding is_stopped_scenario_status trim_space equal_fold_ascii is_space fold_ascii trim_left
stopped_seen = refl

module _ {W : Type 0} (env : Env W) where
  -- `CreateScenario` on a request that decodes: a 202 means that one row was stored and one message
  -- published, both the document of the reply, queued and with the request's name and profile; a
  -- refusal means no call, a failed insert, or an insert whose message could not be published.
  pub create_scenario-Creates :
      (req : ScenarioRequest) (w : W)
      → Creates req
          (create_scenario env (document req) (record { world = w; trace = [] })).0
          (create_scenario env (document req) (record { world = w; trace = [] })).1.trace
  unfolding create_scenario
  create_scenario-Creates req w = ground arith

  -- `StopScenario`: a 200 means that a document whose status stops the workers was stored under the
  -- id and published, and the same row stands after a 502; all other replies leave no row.
  pub stop_scenario-Stops :
      (id : String) (w : W)
      → Stops id
          (stop_scenario env id (record { world = w; trace = [] })).0
          (stop_scenario env id (record { world = w; trace = [] })).1.trace
  unfolding stop_scenario sees_stop
  stop_scenario-Stops id w = ground (arith, stopped_seen)

  -- A request that decodes is answered with 400 exactly if it is not valid.
  create_scenario_invalid :
      (req : ScenarioRequest) (s : State W)
      → (code_of (create_scenario env (document req) s).0 ≡ 400) ↔ (validate_request req ≢ ok tt)
  unfolding create_scenario
  create_scenario_invalid req s = (ground arith, ground arith)
