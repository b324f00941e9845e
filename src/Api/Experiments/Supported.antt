-- ===== src/Api/Experiments/Supported.antt =====
-- The API's requests against the chaos client of internal/chaos.
use clusterprobe.Prelude.{
  str_eq, Bool, true, false, inl, inr, if◌then◌else◌, String, Option, none, some, ◌≡◌, refl, arith,
  ◌⊎◌,
}
use clusterprobe.Go.Errors.{ok}
use clusterprobe.Workload.Types.{ChaosExperimentRequest, Config, is_empty, validate_chaos_request}
use clusterprobe.Chaos.Types.{ExperimentSpec}
use clusterprobe.Chaos.Client.{apply, find_gvr, chaos_gvrs}
use clusterprobe.Chaos.Client as Client
use clusterprobe.Go.Action.{within}
use clusterprobe.Chaos.Phases.{Parsers}
use clusterprobe.Api.Experiments.Specs.{
  Fields, end, lookup, build_experiment_spec, chaos_kind_from_config, chaos_spec_from_config,
}

is_some : {A : Type 0} → Option A → Bool
is_some none = false
is_some (some a) = true

-- A kind is empty, or the client has a resource for it and the handler a spec.
IsSupported : String → Config → Type 0
IsSupported kind config =
    (is_empty kind ≡ true)
    ⊎ ((is_some (find_gvr kind chaos_gvrs) ≡ true)
        × (is_some (chaos_spec_from_config kind config) ≡ true))

IsSupported-if :
    (b : Bool) (kind other : String) (config : Config)
    → IsSupported kind config
    → IsSupported other config
    → IsSupported (if b then kind else other) config
IsSupported-if true kind other config h k = h
IsSupported-if false kind other config h k = k

chaos_kind_from_config-IsSupported :
    (config : Config) → IsSupported (chaos_kind_from_config config) config
unfolding chaos_kind_from_config find_gvr chaos_spec_from_config IsSupported is_some
chaos_kind_from_config-IsSupported config =
    let t = lookup "type" config in
    IsSupported-if (str_eq t "pod") "PodChaos" _ config (inr (refl, refl)) (
      IsSupported-if (str_eq t "network") "NetworkChaos" _ config (inr (refl, refl)) (
        IsSupported-if (str_eq t "io") "IOChaos" _ config (inr (refl, refl)) (
          IsSupported-if (str_eq t "stress") "StressChaos" _ config (inr (refl, refl)) (
            IsSupported-if (str_eq t "time") "TimeChaos" "" config (inr (refl, refl)) (inl refl)))))

abbrev pub resource_of : Option String → String
resource_of none = ""
resource_of (some resource) = resource

abbrev pub body_of : Option Fields → Fields
body_of none = end
body_of (some body) = body

-- What a built experiment has, for a request with a name.
build_experiment_spec_parts :
    (req : ChaosExperimentRequest) {spec : ExperimentSpec Fields}
    → validate_chaos_request req ≡ ok tt
    → build_experiment_spec req ≡ ok spec
    → (spec.name ≡ req.name)
      × (spec.namespace ≡ "cluster-probe")
      × (spec.kind ≡ chaos_kind_from_config req.config)
      × (is_empty req.name ≡ false)
      × (is_empty (chaos_kind_from_config req.config) ≡ false)
      × (is_some spec.spec ≡ true)
unfolding build_experiment_spec validate_chaos_request is_some
build_experiment_spec_parts req valid built = ground arith

-- The client has a resource for the kind that is chosen, unless none is.
chosen_resource :
    (config : Config)
    → is_empty (chaos_kind_from_config config) ≡ false
    → is_some (find_gvr (chaos_kind_from_config config) chaos_gvrs) ≡ true
unfolding IsSupported
chosen_resource config h = elim (chaos_kind_from_config-IsSupported config) [
  | inl e ↦ cc (e, h)
  | inr p ↦ p.0
]

module _ {W : Type 0} (parsers : Parsers) (env : Client.Env W Fields) (namespace : String) where
  apply_complete :
      (spec : ExperimentSpec Fields) (w : W)
      → is_empty spec.name ≡ false
      → is_empty spec.namespace ≡ false
      → is_empty spec.kind ≡ false
      → is_some (find_gvr spec.kind chaos_gvrs) ≡ true
      → is_some spec.spec ≡ true
      → apply parsers env namespace spec w
        ≡ within "create chaos experiment"
            (env.create
              (resource_of (find_gvr spec.kind chaos_gvrs))
              spec.namespace
              spec.kind
              spec.name
              (body_of spec.spec))
            w
  unfolding apply is_some
  apply_complete spec w h n k f b = ground arith

  -- The client accepts every experiment that the handler builds from a valid request: it goes to the
  -- API server under the request's name, in the namespace cluster-probe, as the resource of its kind.
  pub apply-build_experiment_spec :
      (req : ChaosExperimentRequest) {spec : ExperimentSpec Fields} (w : W)
      → validate_chaos_request req ≡ ok tt
      → build_experiment_spec req ≡ ok spec
      → apply parsers env namespace spec w
        ≡ within "create chaos experiment"
            (env.create
              (resource_of (find_gvr spec.kind chaos_gvrs))
              "cluster-probe"
              spec.kind
              req.name
              (body_of spec.spec))
            w
  unfolding IsSupported is_some
  apply-build_experiment_spec req {spec} w valid built =
      let p = build_experiment_spec_parts req valid built in
      cc (
        apply_complete spec w (cc (p.0, p.3)) (cc (p.1)) (cc (p.2, p.4))
            (cc (p.2, chosen_resource req.config p.4)) p.5,
        p.0,
        p.1,
      )
