-- ===== src/Workload/Types.antt =====
-- internal/workload/types.go: the documents that the services exchange, and their validation.
use clusterprobe.Prelude.{ℕ, String, Bool, ◌||◌, not, List, ◌==◌, str_eq}
use clusterprobe.Go.Int64.{ℤ, pos, ltb_ℤ, leb_ℤ}
use clusterprobe.Go.Errors.{msg, Result, ◌>>◌, fail_if, context}

-- A `time.Time`: nanoseconds since the zero time, which is what `IsZero` tests for.
abbrev pub Time : Type 0
Time = ℕ

-- The constants of the string type `WorkloadType`.
abbrev pub cpu_burn : String
cpu_burn = "cpu_burn"

abbrev pub mem_alloc : String
mem_alloc = "mem_alloc"

abbrev pub db_write : String
db_write = "db_write"

abbrev pub db_read : String
db_read = "db_read"

abbrev pub mixed : String
mixed = "mixed"

pub record LoadProfile : Type 0 where
  pub rps : ℤ
  pub duration : ℤ  -- time.Duration, in nanoseconds
  pub payload_size_bytes : ℤ
  pub concurrency : ℤ
  pub target_queue : String
  pub workload_type : String

pub record ScenarioRequest : Type 0 where
  pub name : String
  pub profile : LoadProfile
  pub stop_on_error : Bool

pub record ScenarioResponse : Type 0 where
  pub id : String
  pub name : String
  pub profile : LoadProfile
  pub status : String
  pub created_at : Time

-- A `map[string]string`, as an association list.
abbrev pub Config : Type 0
Config = List (String × String)

pub record ChaosExperimentRequest : Type 0 where
  pub name : String
  pub scenario : String
  pub config : Config

pub record ChaosExperimentResponse : Type 0 where
  pub id : String
  pub name : String
  pub scenario : String
  pub config : Config
  pub status : String
  pub created_at : Time

-- The `switch` over the workload type.
unfoldable pub is_workload_type : String → Bool
is_workload_type t =
    str_eq t cpu_burn
    || (str_eq t mem_alloc || (str_eq t db_write || (str_eq t db_read || str_eq t mixed)))

abbrev pub is_empty : String → Bool
is_empty s = str_eq s ""

unfoldable pub validate_profile : LoadProfile → Result (Unit {0})
validate_profile p = do
  fail_if (leb_ℤ p.rps (pos 0)) (msg "rps must be greater than zero")
  fail_if (leb_ℤ p.duration (pos 0)) (msg "duration must be greater than zero")
  fail_if (ltb_ℤ p.payload_size_bytes (pos 0)) (msg "payload_size_bytes must be non-negative")
  fail_if (leb_ℤ p.concurrency (pos 0)) (msg "concurrency must be greater than zero")
  fail_if (is_empty p.target_queue) (msg "target_queue is required")
  fail_if (not (is_workload_type p.workload_type)) (msg "workload_type is invalid")

unfoldable pub validate_request : ScenarioRequest → Result (Unit {0})
validate_request r = do
  fail_if (is_empty r.name) (msg "name is required")
  context "profile" (validate_profile r.profile)

unfoldable pub validate_response : ScenarioResponse → Result (Unit {0})
validate_response r = do
  fail_if (is_empty r.id) (msg "id is required")
  fail_if (is_empty r.name) (msg "name is required")
  context "profile" (validate_profile r.profile)
  fail_if (is_empty r.status) (msg "status is required")
  fail_if (r.created_at == 0) (msg "created_at is required")

unfoldable pub validate_chaos_request : ChaosExperimentRequest → Result (Unit {0})
validate_chaos_request r = do
  fail_if (is_empty r.name) (msg "name is required")
  fail_if (is_empty r.scenario) (msg "scenario is required")

unfoldable pub validate_chaos_response : ChaosExperimentResponse → Result (Unit {0})
validate_chaos_response r = do
  fail_if (is_empty r.id) (msg "id is required")
  fail_if (is_empty r.name) (msg "name is required")
  fail_if (is_empty r.scenario) (msg "scenario is required")
  fail_if (is_empty r.status) (msg "status is required")
  fail_if (r.created_at == 0) (msg "created_at is required")
