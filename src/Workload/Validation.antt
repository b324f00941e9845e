-- ===== src/Workload/Validation.antt =====
-- What the validation of internal/workload/types.go accepts.
use clusterprobe.Prelude.{String, ◌≡◌, ◌≢◌, ◌↔◌, ◌⊎◌, arith, str_eq_iff, true}
use clusterprobe.Go.Int64.{pos, ◌≤ℤ◌}
use clusterprobe.Go.Errors.{ok}
use clusterprobe.Workload.Types.{
  LoadProfile, ScenarioRequest, ScenarioResponse, is_workload_type, validate_profile,
  validate_request, validate_response, cpu_burn, mem_alloc, db_write, db_read, mixed,
}

abbrev pub IsWorkloadType : String → Type 0
IsWorkloadType t =
    (t ≡ cpu_burn) ⊎ ((t ≡ mem_alloc) ⊎ ((t ≡ db_write) ⊎ ((t ≡ db_read) ⊎ (t ≡ mixed))))

pub record IsValidProfile (p : LoadProfile) : Type 0 where
  pub some_rps : pos 1 ≤ℤ p.rps
  pub some_duration : pos 1 ≤ℤ p.duration
  pub payload_not_negative : pos 0 ≤ℤ p.payload_size_bytes
  pub some_concurrency : pos 1 ≤ℤ p.concurrency
  pub some_queue : p.target_queue ≢ ""
  pub known_type : IsWorkloadType p.workload_type

pub is_workload_type_iff : (t : String) → (is_workload_type t ≡ true) ↔ IsWorkloadType t
unfolding is_workload_type
is_workload_type_iff t = (
  ground (
    arith,
    str_eq_iff t cpu_burn,
    str_eq_iff t mem_alloc,
    str_eq_iff t db_write,
    str_eq_iff t db_read,
    str_eq_iff t mixed,
  ),
  ground (
    arith,
    str_eq_iff t cpu_burn,
    str_eq_iff t mem_alloc,
    str_eq_iff t db_write,
    str_eq_iff t db_read,
    str_eq_iff t mixed,
  ),
)

validate_profile_sound : (p : LoadProfile) → validate_profile p ≡ ok tt → IsValidProfile p
unfolding validate_profile
validate_profile_sound p h = record {
  some_rps = ground arith;
  some_duration = ground arith;
  payload_not_negative = ground arith;
  some_concurrency = ground arith;
  some_queue = ground (arith, str_eq_iff p.target_queue "");
  known_type = (is_workload_type_iff _).0 (ground arith);
}

validate_profile_complete : (p : LoadProfile) → IsValidProfile p → validate_profile p ≡ ok tt
unfolding validate_profile
validate_profile_complete p v =
    ground
      (arith, str_eq_iff p.target_queue "", (is_workload_type_iff p.workload_type).1 v.known_type)

-- `Validate` accepts a load profile exactly if its rate, duration and concurrency are positive, its
-- payload size is not negative, its queue is named and its workload type is one of the five.
pub validate_profile_iff : (p : LoadProfile) → (validate_profile p ≡ ok tt) ↔ IsValidProfile p
validate_profile_iff p = (validate_profile_sound p, validate_profile_complete p)

pub record IsValidRequest (r : ScenarioRequest) : Type 0 where
  pub named : r.name ≢ ""
  pub valid_profile : IsValidProfile r.profile

-- `Validate` accepts a scenario request exactly if it is named and its profile is valid.
pub validate_request_iff : (r : ScenarioRequest) → (validate_request r ≡ ok tt) ↔ IsValidRequest r
unfolding validate_request
validate_request_iff r = (
  λ h. record {
    named = ground (arith, str_eq_iff r.name "");
    valid_profile = validate_profile_sound r.profile (ground (arith, str_eq_iff r.name ""));
  },
  λ v. ground (arith, str_eq_iff r.name "", validate_profile_complete r.profile v.valid_profile),
)

pub record IsValidResponse (r : ScenarioResponse) : Type 0 where
  pub identified : r.id ≢ ""
  pub named : r.name ≢ ""
  pub valid_profile : IsValidProfile r.profile
  pub has_status : r.status ≢ ""
  pub dated : r.created_at ≢ 0

-- `Validate` accepts a scenario response exactly if its id, name and status are set, its profile is
-- valid and its creation time is not the zero time.
pub validate_response_iff :
    (r : ScenarioResponse) → (validate_response r ≡ ok tt) ↔ IsValidResponse r
unfolding validate_response
validate_response_iff r = (
  λ h. record {
    identified = ground (arith, str_eq_iff r.id "");
    named = ground (arith, str_eq_iff r.name "");
    valid_profile = validate_profile_sound r.profile (ground arith);
    has_status = ground (arith, str_eq_iff r.status "");
    dated = ground arith;
  },
  λ v. ground (
    arith,
    str_eq_iff r.id "",
    str_eq_iff r.name "",
    str_eq_iff r.status "",
    validate_profile_complete r.profile v.valid_profile,
  ),
)
