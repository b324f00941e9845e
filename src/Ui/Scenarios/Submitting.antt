-- ===== src/Ui/Scenarios/Submitting.antt =====
-- What `CreateScenario` of cmd/ui/handlers/scenarios.go sends to the API.
use clusterprobe.Prelude.{
  ◌≢◌, String, ◌≡◌, ◌⊎◌, ◌↔◌, inl, inr, refl, arith, Option, none, some, ◌∷◌,
}
use clusterprobe.Go.Int64.{ℤ, pos, ◌≤ℤ◌, ◌*ℤ◌}
use clusterprobe.Go.Errors.{GoError, Result, ok, err}
use clusterprobe.Go.Strings.{codes}
use clusterprobe.Go.Numbers.{atoi}
use clusterprobe.Workload.Types.{ScenarioRequest, ScenarioResponse}
use clusterprobe.Api.Http.{write_header}
use clusterprobe.Ui.Forms.{parse_int_field, parse_duration_seconds}
use clusterprobe.Ui.Pages.{Env, State, Answer, did_create_scenario, http_error, redirect, or_error}
use clusterprobe.Ui.Scenarios.{request_of, submitted, scenarios_create}

-- The request has the numbers and the texts of the form; its seconds are above 0.
pub record IsRead (form : String → String) (req : ScenarioRequest) : Type 0 where
  pub rps : atoi (codes (form "rps")) ≡ some req.profile.rps
  pub payload_size : atoi (codes (form "payload_size")) ≡ some req.profile.payload_size_bytes
  pub concurrency : atoi (codes (form "concurrency")) ≡ some req.profile.concurrency
  pub seconds : ℤ
  pub duration_field : atoi (codes (form "duration")) ≡ some seconds
  pub some_seconds : pos 1 ≤ℤ seconds
  pub duration : req.profile.duration ≡ seconds *ℤ pos 1000000000
  pub name : req.name ≡ form "name"
  pub target_queue : req.profile.target_queue ≡ form "target_queue"
  pub workload_type : req.profile.workload_type ≡ form "workload_type"

-- Nothing is read from a form that does not parse, or for which no request has its numbers.
abbrev pub IsUnread : Option GoError → (String → String) → Type 0
IsUnread parsed form = (parsed ≢ none) ⊎ ((req : ScenarioRequest) → ¬ IsRead form req)

-- A submission that is not read is refused without a call of the API; any other makes one call with
-- the request of the form.
abbrev pub Submits :
    {W : Type 0} → Option GoError → (String → String) → State W → Answer × State W → Type 0
Submits parsed form s r =
    (IsUnread parsed form × (r.0.status ≡ some 400) × (r.1.calls ≡ s.calls))
    ⊎ ((req : ScenarioRequest) × (answer : Result ScenarioResponse) × (parsed ≡ none)
        × IsRead form req
        × (r.1.calls ≡ did_create_scenario req answer ∷ s.calls)
        × ((r.0.status ≡ some 303) ↔ ((resp : ScenarioResponse) × (answer ≡ ok resp)))
        × ((r.0.status ≡ some 502) ↔ ((e : GoError) × (answer ≡ err e))))

-- The number that a field has, and 0 for none.
abbrev number_in : String → ℤ
number_in value = elim (atoi (codes value)) [ none ↦ pos 0 | some n ↦ n ]

request_of-IsRead :
    (form : String → String) (req : ScenarioRequest) → request_of form ≡ ok req → IsRead form req
unfolding request_of parse_int_field parse_duration_seconds
request_of-IsRead form req h = record {
  rps = ground arith;
  payload_size = ground arith;
  concurrency = ground arith;
  seconds = number_in (form "duration");
  duration_field = ground arith;
  some_seconds = ground arith;
  duration = ground arith;
  name = ground arith;
  target_queue = ground arith;
  workload_type = ground arith;
}

request_of_unread :
    (form : String → String) (e : GoError) (req : ScenarioRequest)
    → request_of form ≡ err e
    → ¬ IsRead form req
unfolding request_of parse_int_field parse_duration_seconds
request_of_unread form e req h read =
    ground
      (arith, read.rps, read.payload_size, read.concurrency, read.duration_field, read.some_seconds)

module _ {W : Type 0} (env : Env W) (form : String → String) where
  answered-Submits :
      (req : ScenarioRequest) (answer : Result ScenarioResponse) (w : W) (s : State W)
      → IsRead form req
      → Submits none form s (
          or_error
            (answer, record { world = w; calls = did_create_scenario req answer ∷ s.calls })
            502
            "failed to create scenario"
            (λ resp s1. (redirect 303 "/scenarios?success=1", s1)))
  unfolding http_error redirect write_header
  answered-Submits req (ok resp) w s h = inr (
    req,
    ok resp,
    refl,
    h,
    refl,
    (λ k. (resp, refl), λ k. refl),
    (λ k. ground arith, λ k. ground arith),
  )
  answered-Submits req (err e) w s h = inr (
    req,
    err e,
    refl,
    h,
    refl,
    (λ k. ground arith, λ k. ground arith),
    (λ k. (e, refl), λ k. refl),
  )

  submitted-Submits :
      (r : Result ScenarioRequest) (s : State W)
      → ((req : ScenarioRequest) → r ≡ ok req → IsRead form req)
      → ((e : GoError) (req : ScenarioRequest) → r ≡ err e → ¬ IsRead form req)
      → Submits none form s (submitted env r s)
  unfolding submitted http_error redirect write_header
  submitted-Submits (err e) s h unread = inl (inr (λ req. unread e req refl), refl, refl)
  submitted-Submits (ok req) s h unread = answered-Submits req _ _ s (h req refl)

  -- Submitting a scenario gives a 400 and no call of the API if the form does not parse, or if no
  -- request has its numbers, with seconds above 0; otherwise the API is called once with the numbers
  -- and texts of the form, and its answer decides between the redirect 303 and a 502.
  pub scenarios_create-Submits :
      (parsed : Option GoError) (s : State W)
      → Submits parsed form s (scenarios_create env parsed form s)
  unfolding scenarios_create http_error write_header
  scenarios_create-Submits (some e) s = inl (inl (λ h. ground arith), refl, refl)
  scenarios_create-Submits none s =
      submitted-Submits (request_of form) s (request_of-IsRead form) (request_of_unread form)
