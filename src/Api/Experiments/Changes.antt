-- ===== src/Api/Experiments/Changes.antt =====
-- What the handlers of experiments change, on every path.
use clusterprobe.Prelude.{str_eq_iff, ℕ, String, false, none, some, List, [], ◌∷◌, ◌≡◌, arith}
use clusterprobe.Go.Errors.{ok, err}
use clusterprobe.Workload.Types.{is_empty, ChaosExperimentRequest, ChaosExperimentResponse}
use clusterprobe.Api.Http.{Outcome, goes, fails}
use clusterprobe.Api.Experiments.{
  Env, Event, did_apply, did_delete, did_insert, did_update, did_remove, delete_experiment,
  get_experiment, to_response, persist_chaos_status, find_record, store_change,
}
use clusterprobe.Api.Experiments.Specs.{build_experiment_spec}

-- How `CreateExperiment` may end, with the calls that it made, newest first.
abbrev pub Creates :
    ChaosExperimentRequest → Outcome (ℕ × ChaosExperimentResponse) → List Event → Type 0
Creates req (goes (code, resp)) (did_insert x none ∷ did_apply spec (ok id) ∷ []) =
    (code ≡ 202)
    × (build_experiment_spec req ≡ ok spec)
    × (resp ≡ to_response x)
    × (x.id ≡ id)
    × (x.status ≡ "pending")
    × (x.scenario ≡ req.scenario)
    × (x.config ≡ req.config)
Creates req (fails code text) [] = code ≡ 400
Creates req (fails code text) (did_apply spec (err e) ∷ []) = code ≡ 502
Creates req (fails code text) (did_insert x (some e) ∷ did_apply spec (ok id) ∷ []) =
    (code ≡ 500) × (x.id ≡ id)
Creates _ _ _ = ⊥

-- How `DeleteExperiment` may end.
abbrev pub Deletes : String → Outcome ℕ → List Event → Type 0
Deletes id (goes code) (did_remove x none ∷ did_delete y none ∷ []) =
    (code ≡ 204) × (x ≡ id) × (y ≡ id)
Deletes id (fails code text) [] = (code ≡ 400) × (id ≡ "")
Deletes id (fails code text) (did_delete y (some e) ∷ []) = (code ≡ 502) × (y ≡ id)
Deletes id (fails code text) (did_remove x (some e) ∷ did_delete y none ∷ []) =
    (code ≡ 500) × (x ≡ id) × (y ≡ id)
Deletes _ _ _ = ⊥

-- The changes of `GetExperiment`: none, or one update of the record to a phase that is not empty.
abbrev pub IsSynced : String → List Event → Type 0
IsSynced id [] = Unit
IsSynced id (did_update x phase e ∷ []) = (x ≡ id) × (is_empty phase ≡ false)
IsSynced _ _ = ⊥

module _ {W : Type 0} (env : Env W) where
  -- `DeleteExperiment` with an id deletes the experiment first and then its record: a 204 means that
  -- both are gone, a 502 that the record was not touched, a 500 that only the record is left.
  pub delete_experiment-Deletes :
      (id : String) (w : W)
      → Deletes id
          (delete_experiment env id (record { world = w; trace = [] })).0
          (delete_experiment env id (record { world = w; trace = [] })).1.trace
  unfolding delete_experiment
  delete_experiment-Deletes id w = ground (arith, str_eq_iff id "")

  -- `GetExperiment` changes at most the status of the record with the id that was asked for, and
  -- never empties it.
  pub get_experiment-IsSynced :
      (view id : String) (w : W)
      → IsSynced id (get_experiment env view id (record { world = w; trace = [] })).1.trace
  unfolding get_experiment find_record store_change persist_chaos_status
  get_experiment-IsSynced view id w = ground arith
