-- ===== src/Ui/Forms.antt =====
-- The values of forms, in cmd/ui/handlers/server.go.
use Prim.Native.Char.{code}
use clusterprobe.Prelude.{
  String, ◌<>◌, Option, none, some, List, [], ◌∷◌, ◌==◌, str_eq, if◌then◌else◌,
}
use clusterprobe.Go.Int64.{ℤ, pos, leb_ℤ, ◌*ℤ◌}
use clusterprobe.Go.Errors.{Result, ok, err, msg, fail_if, ◌>>=◌, ◌>>◌}
use clusterprobe.Go.Strings.{codes}
use clusterprobe.Go.Text.{trim, split_equals}
use clusterprobe.Go.Numbers.{atoi}
use clusterprobe.Workload.Types.{Config, is_empty}

abbrev pub number_or : String → Option ℤ → Result ℤ
number_or text none = err (msg text)
number_or text (some n) = ok n

unfoldable pub parse_int_field : (value field : String) → Result ℤ
parse_int_field value field = number_or (field <> " must be integer") (atoi (codes value))

-- The duration in nanoseconds.
unfoldable pub parse_duration_seconds : String → Result ℤ
parse_duration_seconds value = do
  seconds ← number_or "duration must be integer seconds" (atoi (codes value))
  fail_if (leb_ℤ seconds (pos 0)) (msg "duration must be positive")
  ok (seconds *ℤ pos 1000000000)

abbrev cons_char : (String → String) → List String → List String
cons_char add [] = add "" ∷ []
cons_char add (l ∷ ls) = add l ∷ ls

-- `strings.Split(value, "\n")`
unfoldable pub lines_of : String → List String
lines_of String.[] = "" ∷ []
lines_of (String.◌∷◌ c s) =
    let rest = lines_of s in if code c == 10 then "" ∷ rest else cons_char (String.◌∷◌ c) rest

-- An entry of a Go map, which replaces one with the same key.
unfoldable pub put : (key value : String) → Config → Config
put key value [] = (key, value) ∷ []
put key value ((k, v) ∷ rest) =
    let more = put key value rest in if str_eq key k then (key, value) ∷ rest else (k, v) ∷ more

abbrev add_parameter : Option (String × String) → Config → Config
add_parameter none params = params
add_parameter (some (key, value)) params = put (trim key) (trim value) params

unfoldable pub add_parameters : List String → Config → Config
add_parameters [] params = params
add_parameters (line ∷ lines) params = add_parameters lines (
    let text = trim line in
    if is_empty text then params else add_parameter (split_equals text) params)

unfoldable pub parse_chaos_parameters : String → Config
parse_chaos_parameters value = add_parameters (lines_of value) []
