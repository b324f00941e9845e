-- ===== src/System/Delivery.antt =====
-- From `CreateScenario` of cmd/api to `handleMessage` of cmd/worker: the document that the one
-- publishes is the one that the other gets.
use clusterprobe.Prelude.{ℕ, String, inl, inr, true, false, none, [], ◌∷◌, ◌≡◌, refl, ◌∙◌, arith}
use clusterprobe.Go.Json.{document}
use clusterprobe.Workload.Types.{
  ScenarioRequest, ScenarioResponse, validate_request, validate_profile, is_workload_type,
}
use clusterprobe.Workload.Validation.{is_workload_type_iff, IsWorkloadType}
use clusterprobe.Api.Http.{goes}
use clusterprobe.Api.Scenarios.{create_scenario, scenarios_exchange, did_insert, did_publish}
use clusterprobe.Api.Scenarios
use clusterprobe.Worker.Effects.{Generator}
use clusterprobe.Worker.Effects
use clusterprobe.Worker.Handler.{build_generators, find_generator, handle_message}
use clusterprobe.Worker.Poison.{
  IsPlain, is_for_good, is_poison, is_missing, handle_message-is_for_good,
}

-- A generator is built for each workload type that the validation lets through.
type_is_known :
    {W : Type 0} (cpu mem write read mix : Generator W) (t : String)
    → IsWorkloadType t
    → is_missing (find_generator t (build_generators cpu mem write read mix)) ≡ false
unfolding build_generators find_generator
type_is_known cpu mem write read mix t h = elim h [
  | inl e ↦ rw e refl
  | inr (inl e) ↦ rw e refl
  | inr (inr (inl e)) ↦ rw e refl
  | inr (inr (inr (inl e))) ↦ rw e refl
  | inr (inr (inr (inr e))) ↦ rw e refl
]

known_type_poison :
    {W : Type 0} (cpu mem write read mix : Generator W) (s : ScenarioResponse)
    → is_workload_type s.profile.workload_type ≡ true
    → is_poison (build_generators cpu mem write read mix) (document s) ≡ false
known_type_poison cpu mem write read mix s h =
    type_is_known cpu mem write read mix s.profile.workload_type ((is_workload_type_iff _).0 h)

accepted_known_type :
    {W : Type 0} (env : Scenarios.Env W) (req : ScenarioRequest) (w : W) (code : ℕ)
    (resp : ScenarioResponse)
    → (create_scenario env (document req) (record { world = w; trace = [] })).0 ≡ goes (code, resp)
    → is_workload_type resp.profile.workload_type ≡ true
unfolding create_scenario validate_request validate_profile
accepted_known_type env req w code resp h = ground arith

-- A scenario that `CreateScenario` answers with 202 was stored and then published to its target
-- queue, and a worker that gets the published message never refuses it for good, provided that the
-- store, the counters and the broker of the worker do not return an `UnrecoverableError` themselves.
pub create_scenario-is_for_good :
    {W V : Type 0} (env : Scenarios.Env W) (req : ScenarioRequest) (w : W) (resp : ScenarioResponse)
    (worker : Effects.Env V) (cpu mem write read mix : Generator V) (v : Effects.State V)
    → IsPlain worker
    → (create_scenario env (document req) (record { world = w; trace = [] })).0 ≡ goes (202, resp)
    → ((create_scenario env (document req) (record { world = w; trace = [] })).1.trace
        ≡ did_publish scenarios_exchange req.profile.target_queue (document resp) none
          ∷ did_insert resp.id (document resp) none
          ∷ [])
      × (is_for_good
            (handle_message worker (build_generators cpu mem write read mix) (document resp) v).0
          ≡ false)
unfolding create_scenario
create_scenario-is_for_good env req w resp worker cpu mem write read mix v plain h = (
  ground arith,
  handle_message-is_for_good worker (build_generators cpu mem write read mix) (document resp) v
        plain
      ∙ known_type_poison cpu mem write read mix resp (accepted_known_type env req w 202 resp h),
)
