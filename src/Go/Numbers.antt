-- ===== src/Go/Numbers.antt =====
-- The functions of Go's `strconv` that the source calls, over code points.
use clusterprobe.Prelude.{
  ℕ, zero, suc, ◌+◌, ◌-◌, ◌*◌, ◌&&◌, Option, none, some, List, [], ◌∷◌, ◌==◌, leb, ltb,
  if◌then◌else◌,
}
use clusterprobe.Go.Int64.{ℤ, pos, negsuc, half_range}

-- `strconv.Atoi`: a sign and decimal digits, within 64 bits.
unfoldable pub digits : ℕ → List ℕ → Option ℕ
digits n [] = some n
digits n (c ∷ cs) = if leb b'0' c && leb c b'9' then digits (n * 10 + (c - b'0')) cs else none

abbrev positive : Option ℕ → Option ℤ
positive none = none
positive (some n) = if ltb n half_range then some (pos n) else none

abbrev negative : Option ℕ → Option ℤ
negative none = none
negative (some zero) = some (pos 0)
negative (some (suc n)) = if ltb n half_range then some (negsuc n) else none

abbrev some_digits : List ℕ → Option ℕ
some_digits [] = none
some_digits (c ∷ cs) = digits 0 (c ∷ cs)

unfoldable pub atoi : List ℕ → Option ℤ
atoi [] = none
atoi (c ∷ cs) =
    if c == b'-'
    then negative (some_digits cs)
    else if c == b'+'
    then positive (some_digits cs)
    else positive (some_digits (c ∷ cs))
