-- ===== src/Api/Experiments/Tests.antt =====
-- cmd/api/handlers/chaos.go at concrete inputs.
use clusterprobe.Prelude.{ℕ, List, none, some, [], ◌∷◌, ◌≡◌, refl}
use clusterprobe.Go.Strings.{is_space, mentions, contains, starts_with, lower}
use clusterprobe.Go.Int64.{pos}
use clusterprobe.Go.Errors.{ok, msg}
use clusterprobe.Go.Action.{within}
use clusterprobe.Workload.Types.{
  ChaosExperimentResponse, ChaosExperimentRequest, validate_chaos_request,
}
use clusterprobe.Chaos.Types.{ExperimentSpec, ExperimentStatus}
use clusterprobe.Chaos.Client.{apply, find_gvr, chaos_gvrs, missing}
use clusterprobe.Chaos.Client as Client
use clusterprobe.Chaos.Phases.{Parsers}
use clusterprobe.Api.Experiments.{
  refresh, persist_chaos_status, Env, State, Experiment, delete_experiment, live_phase, refresh_all,
  to_response,
}
use clusterprobe.Api.Experiments.Badge.{render_status_badge, is_terminal_status, status_badge_class}
use clusterprobe.Go.Text.{split_equals, trim, turn_onto, trim_start}
use clusterprobe.Go.Numbers.{atoi, digits}
use clusterprobe.Api.Experiments.Specs.{
  Fields, end, field, text, object, texts, build_experiment_spec, int_value_or,
  parse_label_selector, chaos_kind_from_config, lookup, chaos_spec_from_config, selector_of,
}
use clusterprobe.Api.Experiments.Changes.{Deletes, delete_experiment-Deletes}
use clusterprobe.Api.Experiments.Listing.{reported, statuses_of, last_phase}
use clusterprobe.Api.Http.{goes}
use clusterprobe.Api.Experiments.Supported.{resource_of, body_of, apply-build_experiment_spec}

abbrev ask : ChaosExperimentRequest
ask = record {
  name = "kill-one";
  scenario = "s1";
  config = ("type", "pod") ∷ ("target", "app = api") ∷ [];
}

abbrev built : ExperimentSpec Fields
built = record {
  name = "kill-one";
  namespace = "cluster-probe";
  kind = "PodChaos";
  spec = some (
      field "action" (text "pod-kill") (
        field "mode" (text "one") (
          field "selector"
            (object (
              field "namespaces" (texts ("cluster-probe" ∷ []))
                (field "labelSelectors" (object (field "app" (text "api") end)) end)))
            (field "duration" (text "3m") end))));
}

ask-built : build_experiment_spec ask ≡ ok built
unfolding build_experiment_spec chaos_kind_from_config lookup chaos_spec_from_config selector_of
    parse_label_selector split_equals trim turn_onto trim_start is_space
ask-built = refl

selector_without_key : parse_label_selector " =api" ≡ none
unfolding parse_label_selector split_equals trim turn_onto trim_start is_space
selector_without_key = refl

too_large : int_value_or "9223372036854775808" (pos 2) ≡ pos 2
unfolding int_value_or atoi digits
too_large = refl

badge_done : render_status_badge "a" "Completed" ≡ "<span class=\"badge success\">Completed</span>"
unfolding render_status_badge is_terminal_status mentions contains starts_with lower
    status_badge_class
badge_done = refl

abbrev running : ExperimentStatus
running = record {
  id = "kill-one";
  name = "kill-one";
  namespace = "cluster-probe";
  kind = "PodChaos";
  phase = "running";
  message = "";
  start_time = none;
  end_time = none;
}

abbrev stored : Experiment
stored = record {
  id = "kill-one";
  name = "kill-one";
  scenario = "s1";
  config = [];
  status = "pending";
  created_at = 5;
}

-- The cluster works; the store finds records and refuses to change them.
abbrev read_only : Env ℕ
read_only = record {
  apply = λ spec w. (ok spec.name, w);
  status = λ id w. (ok running, w);
  delete = λ id w. (none, w);
  live = λ w. (ok (running ∷ []), w);
  insert = λ x w. (some (msg "read only"), w);
  find_all = λ w. (ok (record { documents = ok stored ∷ []; after = none }), w);
  find_one = λ id w. (ok (record { documents = ok stored ∷ []; after = none }), w);
  update_status = λ id status w. (some (msg "read only"), w);
  remove = λ id w. (some (msg "read only"), w);
  now = λ w. (9, w);
}

abbrev quiet : State ℕ
quiet = record { world = 0; trace = [] }

delete_experiment-Deletes_example :
    Deletes "kill-one"
      (delete_experiment read_only "kill-one" quiet).0
      (delete_experiment read_only "kill-one" quiet).1.trace
delete_experiment-Deletes_example = delete_experiment-Deletes read_only "kill-one" 0

abbrev parsers : Parsers
parsers = record { parse_time = λ t. none; parse_duration = λ t. none }

abbrev cluster : Client.Env ℕ Fields
cluster = record {
  create = λ resource ns kind name body w. (ok name, w);
  get = λ resource ns id w. (missing, w);
  delete = λ resource ns id w. (missing, w);
  list = λ resource ns w. (ok [], w);
  now = λ w. (0, w);
}

ask_valid : validate_chaos_request ask ≡ ok tt
unfolding validate_chaos_request
ask_valid = refl

apply-build_experiment_spec_example :
    apply parsers cluster "default" built 0
    ≡ within "create chaos experiment"
        (cluster.create
          (resource_of (find_gvr "PodChaos" chaos_gvrs))
          "cluster-probe"
          "PodChaos"
          "kill-one"
          (body_of built.spec))
        0
apply-build_experiment_spec_example =
    apply-build_experiment_spec parsers cluster "default" ask 0 ask_valid ask-built

-- The earlier of two statuses that name the experiment.
abbrev pending : ExperimentStatus
pending = record running { id = "uid-1"; phase = "pending" }

abbrev listed : List ChaosExperimentResponse
listed = to_response (record stored { status = "running" }) ∷ []

listing :
    (refresh_all read_only (pending ∷ running ∷ []) none (ok stored ∷ []) quiet).0 ≡ goes listed
unfolding refresh_all refresh persist_chaos_status live_phase
listing = refl

reported_last : reported "kill-one" (pending ∷ running ∷ []) ≡ some "running"
unfolding statuses_of last_phase
reported_last = refl
