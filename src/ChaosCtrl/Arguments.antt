-- ===== src/ChaosCtrl/Arguments.antt =====
-- `parseArgs` and `splitCommandArgs` of cmd/chaos-ctrl/main.go.
use Prim.Native.Char.{code}
use mathlib.Core.List.{foldl}
use clusterprobe.Prelude.{
  String, ◌<>◌, Bool, true, false, not, ◌&&◌, ◌||◌, Option, none, some, List, [], ◌∷◌, ◌++◌, ◌==◌,
  str_eq, if◌then◌else◌,
}
use clusterprobe.Go.Text.{split_equals}
use clusterprobe.Go.Flags.{parse_flags}
use clusterprobe.Go.Errors.{Result, ok, msg, context, ◌>>=◌, ◌>>◌, fail_if}

unfoldable pub is_command : String → Bool
is_command arg =
    str_eq arg "apply"
    || (str_eq arg "status" || (str_eq arg "delete" || (str_eq arg "list" || str_eq arg "version")))

unfoldable pub is_global_name : String → Bool
is_global_name name =
    str_eq name "namespace"
    || (str_eq name "kubeconfig"
        || (str_eq name "context" || (str_eq name "output" || str_eq name "o")))

-- `strings.TrimLeft(arg, "-")`
unfoldable pub trim_dashes : String → String
trim_dashes String.[] = String.[]
trim_dashes (String.◌∷◌ c s) = if code c == b'-' then trim_dashes s else String.◌∷◌ c s

-- `strings.HasPrefix(arg, "-")`
unfoldable pub has_dash : String → Bool
has_dash String.[] = false
has_dash (String.◌∷◌ c s) = code c == b'-'

abbrev before_equals : String → Option (String × String) → String
before_equals name none = name
before_equals name (some (key, value)) = key

unfoldable pub is_global_flag : String → Bool
unfolding is_global_name trim_dashes has_dash
is_global_flag arg =
    let name = trim_dashes arg in
    is_global_name (before_equals name (split_equals name)) && has_dash arg

-- `strings.Contains(arg, "=")`
abbrev pub has_equals : String → Bool
has_equals arg = elim (split_equals arg) [ none ↦ false | some parts ↦ true ]

-- The arguments before and after the split.
pub record Split : Type 0 where
  pub global_args : List String
  pub command : String
  pub command_args : List String

abbrev add_global : List String → Split → Split
add_global args s = record s { global_args = args ++ s.global_args }

abbrev add_argument : String → Split → Split
add_argument arg s = record s { command_args = arg ∷ s.command_args }

-- The loop, once the command is found.
unfoldable pub split_after : String → List String → Split
split_after command [] = record { global_args = []; command = command; command_args = [] }
split_after command (arg ∷ []) =
    let none_left : Split = record { global_args = []; command = command; command_args = [] } in
    if is_global_flag arg then add_global (arg ∷ []) none_left else add_argument arg none_left
split_after command (arg ∷ next ∷ rest) = elim (is_global_flag arg) [
  | true ↦ elim (has_equals arg) [
    | true ↦ add_global (arg ∷ []) (split_after command (next ∷ rest))
    | false ↦ add_global (arg ∷ next ∷ []) (split_after command rest)
  ]
  | false ↦ add_argument arg (split_after command (next ∷ rest))
]

unfoldable pub split_command_args : List String → Split
split_command_args [] = record { global_args = []; command = ""; command_args = [] }
split_command_args (arg ∷ args) = elim (is_command arg) [
  | true ↦ split_after arg args
  | false ↦ add_global (arg ∷ []) (split_command_args args)
]

pub record CommandConfig : Type 0 where
  pub namespace : String
  pub kubeconfig : String
  pub context : String
  pub output : String
  pub args : List String

-- What setting a flag changes; both `-output` and `-o` set the output.
unfoldable pub set_flag : CommandConfig → String × String → CommandConfig
set_flag cfg (name, value) =
    if str_eq name "namespace"
    then record cfg { namespace = value }
    else if str_eq name "kubeconfig"
    then record cfg { kubeconfig = value }
    else if str_eq name "context"
    then record cfg { context = value }
    else record cfg { output = value }

abbrev pub defaults : CommandConfig
defaults = record {
  namespace = "cluster-probe";
  kubeconfig = "";
  context = "";
  output = "text";
  args = [];
}

-- `quote` is the verb `%q`. The usage that is printed for a missing command is left out.
unfoldable pub parse_args : (String → String) → List String → Result (CommandConfig × String)
parse_args quote args = do
  let split = split_command_args args
  (set, rest) ← context "parse global flags" (parse_flags is_global_name split.global_args)
  fail_if (str_eq split.command "") (msg "command is required")
  let cfg = record (foldl set_flag defaults set) { args = split.command_args }
  fail_if (not (str_eq cfg.output "text") && not (str_eq cfg.output "json"))
      (msg ("unsupported output format " <> quote cfg.output))
  ok (cfg, split.command)
