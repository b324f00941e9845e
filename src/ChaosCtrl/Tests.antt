-- ===== src/ChaosCtrl/Tests.antt =====
-- cmd/chaos-ctrl at concrete arguments.
use clusterprobe.Go.Text.{split_equals}
use clusterprobe.Go.Flags.{parse_flags}
use clusterprobe.Prelude.{String, ◌<>◌, [], ◌∷◌, ◌≡◌, refl}
use clusterprobe.Go.Errors.{ok, err, msg, wrapped}
use clusterprobe.ChaosCtrl.Arguments.{
  set_flag, is_global_flag, split_after, is_global_name, defaults, parse_args, split_command_args,
  is_command,
}
use clusterprobe.ChaosCtrl.Sides.{flagged, argument, split_command_args-words}

abbrev quote : String → String
quote s = "\"" <> (s <> "\"")

parsed :
    parse_args quote ("-o" ∷ "json" ∷ "status" ∷ "--namespace=lab" ∷ "burn" ∷ [])
    ≡ ok (record defaults { namespace = "lab"; output = "json"; args = "burn" ∷ [] }, "status")
unfolding parse_args parse_flags split_command_args is_command split_equals is_global_name
    split_after is_global_flag set_flag
parsed = refl

-- A value that is spelled like a command is taken for the command.
value_taken :
    parse_args quote ("--namespace" ∷ "list" ∷ "list" ∷ [])
    ≡ err (wrapped "parse global flags" (msg "flag needs an argument: -namespace"))
unfolding parse_args parse_flags split_command_args is_command split_after is_global_flag
    split_equals
value_taken = refl

split_command_args-words_example :
    split_command_args ("-o" ∷ "json" ∷ "apply" ∷ "-f" ∷ "--context" ∷ "lab" ∷ "burn.yaml" ∷ [])
    ≡ record {
      global_args = "-o" ∷ "json" ∷ "--context" ∷ "lab" ∷ [];
      command = "apply";
      command_args = "-f" ∷ "burn.yaml" ∷ [];
    }
unfolding is_command is_global_flag split_equals
split_command_args-words_example =
    split_command_args-words ("-o" ∷ "json" ∷ []) "apply"
      (argument "-f" ∷ flagged "--context" "lab" ∷ argument "burn.yaml" ∷ []) (refl, (refl, tt))
      refl (refl, ((refl, refl), (refl, tt)))
