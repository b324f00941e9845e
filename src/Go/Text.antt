-- ===== src/Go/Text.antt =====
-- The functions of Go's `strings` that the source calls for a text that it keeps.
use Prim.Native.Char.{code}
use clusterprobe.Prelude.{some, ◌==◌, none, Option, String, ◌<>◌, List, [], ◌∷◌, if◌then◌else◌}
use clusterprobe.Go.Strings.{is_space}

-- `strings.TrimSpace`, giving text.
unfoldable pub trim_start : String → String
trim_start String.[] = String.[]
trim_start (String.◌∷◌ c s) = if is_space (code c) then trim_start s else String.◌∷◌ c s

unfoldable pub turn_onto : String → String → String
turn_onto String.[] t = t
turn_onto (String.◌∷◌ c s) t = turn_onto s (String.◌∷◌ c t)

unfoldable pub trim : String → String
trim s = turn_onto (trim_start (turn_onto (trim_start s) "")) ""

-- `strings.Join`.
unfoldable pub join : String → List String → String
join sep [] = ""
join sep (s ∷ []) = s
join sep (s ∷ t ∷ rest) = s <> (sep <> join sep (t ∷ rest))

-- `strings.SplitN(input, "=", 2)` where it has two parts, and `strings.Cut(input, "=")` where it finds.
unfoldable pub split_equals : String → Option (String × String)
split_equals String.[] = none
split_equals (String.◌∷◌ c s) =
    let rest = split_equals s in
    if code c == b'='
    then some ("", s)
    else (elim rest [ none ↦ none | some (key, value) ↦ some (String.◌∷◌ c key, value) ])
