-- ===== src/Ui/Chaos.antt =====
-- cmd/ui/handlers/chaos.go.
use clusterprobe.Prelude.{String, Option, none, some, List, map, if◌then◌else◌}
use clusterprobe.Go.Errors.{GoError, Result, ok, err}
use clusterprobe.Workload.Types.{ChaosExperimentRequest, ChaosExperimentResponse, is_empty}
use clusterprobe.Api.Http.{no_reply, write_header}
use clusterprobe.Ui.Views.{build_experiment_view, is_not_found_error}
use clusterprobe.Ui.Forms.{parse_chaos_parameters, put}
use clusterprobe.Ui.Pages.{
  Env, State, Answer, chaos_list, chaos_form, chaos_detail, experiment_status, unavailable,
  not_found, did_create_experiment, did_delete_experiment, http_error, render_status, asked, called,
  or_error,
}

abbrev listed : {W : Type 0} → Env W → Result (List ChaosExperimentResponse) → Answer
listed env (err e) = render_status env 502 (unavailable "Chaos experiments unavailable")
listed env (ok l) = render_status env 200 (chaos_list (map build_experiment_view l))

-- The request of the form, whose values are a function of their fields.
unfoldable pub experiment_of : (String → String) → ChaosExperimentRequest
experiment_of form = record {
  name = form "name";
  scenario = form "scenario";
  config = put "duration" (form "duration") (
      put "target" (form "target")
        (put "type" (form "type") (parse_chaos_parameters (form "parameters"))));
}

module _ {W : Type 0} (env : Env W) where
  -- `ListChaos`
  unfoldable pub chaos : State W → Answer × State W
  chaos s = let (r, s1) = asked env.list_experiments s in (listed env r, s1)

  -- `NewChaos`
  unfoldable pub chaos_new : State W → Answer × State W
  chaos_new s = (render_status env 200 (chaos_form none), s)

  with_id : String → (State W → Answer × State W) → State W → Answer × State W
  with_id id k s = if is_empty id then (http_error 400 "missing id" no_reply, s) else k s

  missing_experiment : GoError → Answer
  missing_experiment e =
      if is_not_found_error e
      then render_status env 404 (not_found "Chaos experiment not found")
      else http_error 502 "failed to load experiment" no_reply

  found_experiment : Result ChaosExperimentResponse × State W → Answer × State W
  unfolding missing_experiment
  found_experiment (err e, s) = (missing_experiment e, s)
  found_experiment (ok x, s) = (render_status env 200 (chaos_detail (build_experiment_view x)), s)

  -- `ChaosDetail`
  unfoldable pub chaos_detail_page : String → State W → Answer × State W
  unfolding with_id found_experiment
  chaos_detail_page id = with_id id (λ s. found_experiment (asked (env.get_experiment id) s))

  -- `ChaosStatus`
  unfoldable pub chaos_status : String → State W → Answer × State W
  unfolding with_id
  chaos_status id = with_id id (λ s.
      or_error (asked (env.get_experiment id) s) 502 "failed to load experiment"
        (λ x s1. (render_status env 200 (experiment_status (build_experiment_view x)), s1)))

  deleted : Option GoError × State W → Answer × State W
  deleted (some e, s) = (http_error 502 "failed to delete experiment" no_reply, s)
  deleted (none, s) = (write_header 200 no_reply, s)

  -- `DeleteChaos`
  unfoldable pub chaos_delete : String → State W → Answer × State W
  unfolding with_id deleted
  chaos_delete id =
      with_id id (λ s. deleted (called (did_delete_experiment id) (env.delete_experiment id) s))

  -- `CreateChaos`; `parsed` is what `ParseForm` gives.
  unfoldable pub chaos_create :
      (parsed : Option GoError) (form : String → String) → State W → Answer × State W
  chaos_create (some e) form s = (http_error 400 "invalid form" no_reply, s)
  chaos_create none form s =
      let req = experiment_of form in
      or_error (called (did_create_experiment req) (env.create_experiment req) s) 502
        "failed to create experiment"
        (λ x s1. (render_status env 200 (chaos_form (some (build_experiment_view x))), s1))
