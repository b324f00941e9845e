-- ===== src/Api/Experiments/Specs.antt =====
-- `buildExperimentSpec` of cmd/api/handlers/chaos.go and what it calls.
use clusterprobe.Prelude.{ℕ, String, Option, none, some, List, [], ◌∷◌, str_eq, if◌then◌else◌}
use clusterprobe.Go.Int64.{ℤ, pos}
use clusterprobe.Go.Errors.{Result, ok, err, msg}
use clusterprobe.Go.Strings.{codes, trim_space}
use clusterprobe.Go.Text.{trim, split_equals}
use clusterprobe.Go.Numbers.{atoi}
use clusterprobe.Workload.Types.{ChaosExperimentRequest, Config, is_empty}
use clusterprobe.Chaos.Types.{ExperimentSpec}

-- A `map[string]any` as the handler builds it.
mutual
  pub data Value : Type 0 where
    text : String → Value
    number : ℤ → Value
    texts : List String → Value
    object : Fields → Value

  pub data Fields : Type 0 where
    end : Fields
    field : String → Value → Fields → Fields

-- A missing key has the empty value.
unfoldable pub lookup : String → Config → String
lookup key [] = ""
lookup key ((k, v) ∷ rest) = if str_eq k key then v else lookup key rest

unfoldable pub parse_label_selector : String → Option (String × String)
parse_label_selector input = elim (split_equals input) [
  | none ↦ none
  | some (key, value) ↦
      if is_empty (trim key)
      then none
      else if is_empty (trim value)
      then none
      else some (trim key, trim value)
]

unfoldable pub value_or : String → String → String
value_or value fallback = elim (trim_space (codes value)) [ [] ↦ fallback | c ∷ cs ↦ value ]

unfoldable pub int_value_or : String → ℤ → ℤ
int_value_or value fallback = elim (atoi (codes value)) [ none ↦ fallback | some n ↦ n ]

unfoldable pub chaos_kind_from_config : Config → String
chaos_kind_from_config config =
    let type = lookup "type" config in
    if str_eq type "pod"
    then "PodChaos"
    else if str_eq type "network"
    then "NetworkChaos"
    else if str_eq type "io"
    then "IOChaos"
    else if str_eq type "stress"
    then "StressChaos"
    else if str_eq type "time"
    then "TimeChaos"
    else ""

unfoldable pub selector_of : Config → Fields
selector_of config =
    let namespaces = field "namespaces" (texts ("cluster-probe" ∷ [])) in
    let target = lookup "target" config in
    if is_empty target then namespaces end else elim (parse_label_selector target) [
      | none ↦ namespaces end
      | some (key, value) ↦
          namespaces (field "labelSelectors" (object (field key (text value) end)) end)
    ]

unfoldable pub chaos_spec_from_config : String → Config → Option Fields
chaos_spec_from_config kind config =
    let selector = field "selector" (object (selector_of config)) in
    let given = lookup "duration" config in
    let duration = field "duration" (text (if is_empty given then "3m" else given)) end in
    let chosen : String → String → Value =
      λ key fallback. text (value_or (lookup key config) fallback) in
    let counted : String → ℕ → Value =
      λ key fallback. number (int_value_or (lookup key config) (pos fallback)) in
    if str_eq kind "PodChaos"
    then some (field "action" (text "pod-kill") (field "mode" (text "one") (selector duration)))
    else if str_eq kind "NetworkChaos"
    then some (
        field "action" (text "delay") (
          field "mode" (text "all") (
            selector (
              field "delay"
                (object (
                  field "latency" (chosen "latency" "100ms") (
                    field "jitter" (chosen "jitter" "20ms")
                      (field "correlation" (chosen "correlation" "0") end))))
                duration))))
    else if str_eq kind "IOChaos"
    then some (
        field "action" (text "latency") (
          field "mode" (text "one") (
            selector (
              field "volumePath" (chosen "volumePath" "/var/lib/postgresql/data") (
                field "path" (chosen "path" "/var/lib/postgresql/data/**") (
                  field "delay" (chosen "delay" "50ms")
                    (field "percent" (counted "percent" 100) duration)))))))
    else if str_eq kind "StressChaos"
    then some (
        field "mode" (text "all") (
          selector (
            field "stressors"
              (object (
                field "cpu"
                  (object
                    (field "workers" (counted "workers" 2) (field "load" (counted "load" 100) end)))
                  end))
              duration)))
    else if str_eq kind "TimeChaos"
    then some
        (field "mode" (text "one") (selector (field "timeOffset" (chosen "offset" "5m") duration)))
    else none

unfoldable pub build_experiment_spec : ChaosExperimentRequest → Result (ExperimentSpec Fields)
build_experiment_spec req =
    let kind = chaos_kind_from_config req.config in
    if is_empty kind
    then err (msg "chaos type is required")
    else elim (chaos_spec_from_config kind req.config) [
      | none ↦ err (msg "invalid chaos config")
      | some spec ↦
          ok
            (record { name = req.name; namespace = "cluster-probe"; kind = kind; spec = some spec })
    ]
