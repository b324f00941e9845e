-- ===== src/Chaos/Tests.antt =====
-- internal/chaos at concrete inputs.
use clusterprobe.Prelude.{
  String, true, none, some, [], ◌≡◌, refl, arith, if◌then◌else◌, str_eq, str_eq_iff,
}
use clusterprobe.Go.Int64.{pos}
use clusterprobe.Go.Errors.{ok}
use clusterprobe.Chaos.Types.{Object}
use clusterprobe.Chaos.Phases.{Parsers, infer_phase}
use clusterprobe.Chaos.Client.{Env, found, missing, status, chaos_gvrs}
use clusterprobe.Chaos.Client.Lookup.{Finds, status_any_order, has_gvr}

-- A parser that knows one duration.
abbrev parsers : Parsers
parsers = record {
  parse_time = λ s. none;
  parse_duration = λ s. if str_eq s "30s" then some (pos 30) else none;
}

abbrev stress : Object
stress = record {
  name = "stress";
  namespace = "cluster-probe";
  kind = "StressChaos";
  status_phase = none;
  status_message = none;
  status_start = none;
  status_end = none;
  spec_duration = some "30s";
  deletion = 0;
  creation = 100;
}

ended : infer_phase parsers stress 130 ≡ "completed"
unfolding infer_phase
ended = refl

-- The experiment is a StressChaos.
abbrev cluster : Env (Unit {0}) String
cluster = record {
  create = λ resource ns kind name body w. (ok name, w);
  get = λ resource ns id w. (if str_eq resource "stresschaos" then found stress else missing, w);
  delete = λ resource ns id w. (missing, w);
  list = λ resource ns w. (ok [], w);
  now = λ w. (130, w);
}

only_stress : (k : String) → has_gvr k "stresschaos" chaos_gvrs ≡ true → k ≡ "StressChaos"
only_stress k h = ground (arith, str_eq_iff "StressChaos" k, str_eq_iff "PodChaos" k)

status_any_order_example :
    Finds "StressChaos" stress (status parsers cluster "cluster-probe" chaos_gvrs "stress" tt).0
status_any_order_example =
    status_any_order parsers cluster "cluster-probe" "stress" "stresschaos" "StressChaos" stress
      chaos_gvrs tt (ground (arith, str_eq_iff "stress" "")) (λ v. refl) (λ r v h. rw h) refl
      only_stress
