-- ===== src/Api/Experiments/Listing.antt =====
-- What `ListExperiments` replies.
use clusterprobe.Prelude.{
  Bool, ◌||◌, str_eq, if◌then◌else◌, String, Option, none, some, List, [], ◌∷◌,
}
use clusterprobe.Go.Errors.{Result, ok, err}
use clusterprobe.Workload.Types.{is_empty, ChaosExperimentResponse}
use clusterprobe.Chaos.Types.{ExperimentStatus}
use clusterprobe.Api.Http.{Outcome, goes, fails}
use clusterprobe.Api.Experiments.{Experiment, to_response}

-- A document as it should be listed: with the live phase, where the cluster has one.
abbrev with_phase : Experiment → Option String → ChaosExperimentResponse
with_phase x none = to_response x
with_phase x (some phase) = to_response (record x { status = phase })

-- A status is about the document with its id or its name.
abbrev is_about : String → ExperimentStatus → Bool
is_about id s = str_eq s.id id || str_eq s.name id

unfoldable pub statuses_of : String → List ExperimentStatus → List ExperimentStatus
statuses_of id [] = []
statuses_of id (s ∷ rest) =
    let about = statuses_of id rest in if is_about id s then s ∷ about else about

unfoldable pub last_phase : List ExperimentStatus → Option String
last_phase [] = none
last_phase (s ∷ rest) =
    let later = last_phase rest in elim later [ none ↦ some s.phase | some phase ↦ some phase ]

-- The phase of the last status about the document; a document without an id has none.
abbrev pub reported : String → List ExperimentStatus → Option String
reported id statuses = if is_empty id then none else last_phase (statuses_of id statuses)

unfoldable pub shown : List ExperimentStatus → Result Experiment → Outcome ChaosExperimentResponse
shown statuses (err e) = fails 500 "decode experiment"
shown statuses (ok x) = goes (with_phase x (reported x.id statuses))
