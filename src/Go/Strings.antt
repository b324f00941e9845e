-- ===== src/Go/Strings.antt =====
-- The functions of Go's `strings` that the source calls, over code points.
use Prim.Native.Char.{code}
use clusterprobe.Prelude.{
  ℕ, ◌+◌, String, Bool, true, false, ◌&&◌, ◌||◌, List, [], ◌∷◌, ◌==◌, leb, if◌then◌else◌, map,
}
use mathlib.Core.List.{reverse}

abbrev pub codes : String → List ℕ
codes String.[] = []
codes (String.◌∷◌ c s) = code c ∷ codes s

-- `unicode.IsSpace`.
unfoldable pub is_space : ℕ → Bool
is_space c =
    (leb 9 c && leb c 13)
    || (c == 32
        || (c == 0x85
            || (c == 0xa0
                || (c == 0x1680
                    || ((leb 0x2000 c && leb c 0x200a)
                        || (c == 0x2028
                            || (c == 0x2029 || (c == 0x202f || (c == 0x205f || c == 0x3000)))))))))

unfoldable pub trim_left : List ℕ → List ℕ
trim_left [] = []
trim_left (c ∷ cs) = if is_space c then trim_left cs else c ∷ cs

-- `strings.TrimSpace`.
unfoldable pub trim_space : List ℕ → List ℕ
trim_space cs = reverse (trim_left (reverse (trim_left cs)))

-- `strings.EqualFold` compares under simple case folding. The classes that hold an ASCII letter are
-- its two cases, with the long s (U+017F) beside s and the Kelvin sign (U+212A) beside k; this is
-- the folding where one side is ASCII.
unfoldable pub fold_ascii : ℕ → ℕ
fold_ascii c =
    if leb b'A' c && leb c b'Z'
    then c + 32
    else if c == 0x17f
    then b's'
    else if c == 0x212a
    then b'k'
    else c

unfoldable pub equal_fold_ascii : List ℕ → List ℕ → Bool
equal_fold_ascii [] [] = true
equal_fold_ascii (c ∷ cs) (d ∷ ds) = fold_ascii c == fold_ascii d && equal_fold_ascii cs ds
equal_fold_ascii _ _ = false

-- `unicode.ToLower` where its result is an ASCII character; the capital I with a dot (U+0130) and
-- the Kelvin sign (U+212A) have such results as well. Other characters are left as they are.
unfoldable pub lower : ℕ → ℕ
lower c =
    if leb b'A' c && leb c b'Z'
    then c + 32
    else if c == 0x130
    then b'i'
    else if c == 0x212a
    then b'k'
    else c

unfoldable pub starts_with : List ℕ → List ℕ → Bool
starts_with [] s = true
starts_with (p ∷ ps) [] = false
starts_with (p ∷ ps) (c ∷ cs) = (p == c) && starts_with ps cs

-- `strings.Contains`
unfoldable pub contains : List ℕ → List ℕ → Bool
contains [] p = starts_with p []
contains (c ∷ cs) p = starts_with p (c ∷ cs) || contains cs p

-- `strings.Contains(strings.ToLower(status), word)`
unfoldable pub mentions : String → String → Bool
mentions status word = contains (map lower (codes status)) (codes word)
