-- ===== src/Go/Flags.antt =====
-- `FlagSet.Parse` of Go's `flag` for flags that take a text. What it prints is left out.
use Prim.Native.Char.{code}
use clusterprobe.Prelude.{
  String, ◌<>◌, Bool, true, false, ◌||◌, Option, none, some, List, [], ◌∷◌, ◌==◌, str_eq,
  if◌then◌else◌,
}
use clusterprobe.Go.Errors.{Result, ok, err, msg}
use clusterprobe.Go.Text.{split_equals}

-- How a word is read: it ends the flags, or is a flag with its value, if the word has one.
pub data FlagWord : Type 0 where
  plain end_of_flags bad_flag : FlagWord
  flag : String → Option String → FlagWord

abbrev with_value : String → Option (String × String) → FlagWord
with_value name none = flag name none
with_value name (some (key, value)) = flag key (some value)

-- The word without its dashes; an equals sign cannot be first.
unfoldable pub named : String → FlagWord
named String.[] = bad_flag
named (String.◌∷◌ c s) =
    if code c == b'-' || code c == b'=' then bad_flag else (elim (split_equals s) [
      | none ↦ flag (String.◌∷◌ c s) none
      | some (key, value) ↦ flag (String.◌∷◌ c key) (some value)
    ])

abbrev two_dashes : String → FlagWord
two_dashes String.[] = end_of_flags
two_dashes (String.◌∷◌ c s) = named (String.◌∷◌ c s)

abbrev one_dash : String → FlagWord
one_dash String.[] = plain
one_dash (String.◌∷◌ c s) = if code c == b'-' then two_dashes s else named (String.◌∷◌ c s)

unfoldable pub flag_word : String → FlagWord
unfolding named
flag_word String.[] = plain
flag_word (String.◌∷◌ c s) = if code c == b'-' then one_dash s else plain

-- The flags that were set, in their order, and the words after them.
abbrev pub Parsed : Type 0
Parsed = List (String × String) × List String

abbrev with_flag : String → String → Result Parsed → Result Parsed
with_flag name value (ok (set, rest)) = ok ((name, value) ∷ set, rest)
with_flag name value (err e) = err e

abbrev undefined_flag : String → Result Parsed
undefined_flag name =
    if str_eq name "help" || str_eq name "h"
    then err (msg "flag: help requested")
    else err (msg ("flag provided but not defined: -" <> name))

-- `defined` tells the names of the flags.
unfoldable pub parse_flags : (String → Bool) → List String → Result Parsed
unfolding flag_word
parse_flags defined [] = ok ([], [])
parse_flags defined (word ∷ []) = elim (flag_word word) [
  | plain ↦ ok ([], word ∷ [])
  | end_of_flags ↦ ok ([], [])
  | bad_flag ↦ err (msg ("bad flag syntax: " <> word))
  | flag name given ↦
      if defined name
      then (elim given [
        | some value ↦ ok ((name, value) ∷ [], [])
        | none ↦ err (msg ("flag needs an argument: -" <> name))
      ])
      else undefined_flag name
]
parse_flags defined (word ∷ next ∷ rest) = elim (flag_word word) [
  | plain ↦ ok ([], word ∷ next ∷ rest)
  | end_of_flags ↦ ok ([], next ∷ rest)
  | bad_flag ↦ err (msg ("bad flag syntax: " <> word))
  | flag name given ↦ elim (defined name) [
    | true ↦ elim given [
      | some value ↦ with_flag name value (parse_flags defined (next ∷ rest))
      | none ↦ with_flag name next (parse_flags defined rest)
    ]
    | false ↦ undefined_flag name
  ]
]
