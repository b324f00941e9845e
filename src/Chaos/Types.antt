-- ===== src/Chaos/Types.antt =====
-- internal/chaos/types.go, and the resources that the client works on.
use clusterprobe.Prelude.{String, Option}
use clusterprobe.Workload.Types.{Time}

-- The spec is a `map[string]any`, which the client passes on; nil is `none`.
pub record ExperimentSpec (S : Type 0) : Type 0 where
  pub name : String
  pub namespace : String
  pub kind : String
  pub spec : Option S

pub record ExperimentStatus : Type 0 where
  pub id : String
  pub name : String
  pub namespace : String
  pub kind : String
  pub phase : String
  pub message : String
  pub start_time : Option Time
  pub end_time : Option Time

-- The parts of an unstructured object that the client reads. A text field is `none` where
-- `NestedString` does not find a string; a zero time is an absent timestamp.
pub record Object : Type 0 where
  pub name : String
  pub namespace : String
  pub kind : String
  pub status_phase : Option String
  pub status_message : Option String
  pub status_start : Option String
  pub status_end : Option String
  pub spec_duration : Option String
  pub deletion : Time
  pub creation : Time
