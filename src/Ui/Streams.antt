-- ===== src/Ui/Streams.antt =====
-- The event streams of cmd/ui/handlers: `writeSSE` of dashboard.go.
-- Texts are code points.
use clusterprobe.Prelude.{
  arith, ℕ, Bool, true, false, List, [], ◌∷◌, ◌++◌, ◌==◌, ◌≡◌, refl, ap, ◌∙◌, if◌then◌else◌, Option,
  none, some, map,
}
use clusterprobe.Go.Strings.{codes}

-- `strings.ReplaceAll(data, "\n", "\ndata: ")`
unfoldable pub safe_data : List ℕ → List ℕ
safe_data [] = []
safe_data (c ∷ cs) =
    let rest = safe_data cs in if c == 10 then 10 ∷ (codes "data: " ++ rest) else c ∷ rest

-- The text that `writeSSE` writes.
unfoldable pub sse_text : (event cs : List ℕ) → List ℕ
sse_text event cs =
    codes "event: " ++ (event ++ (codes "\ndata: " ++ (safe_data cs ++ codes "\n\n")))

abbrev cons_line : ℕ → List (List ℕ) → List (List ℕ)
cons_line c [] = (c ∷ []) ∷ []
cons_line c (l ∷ ls) = (c ∷ l) ∷ ls

-- The lines of a text at its line feeds; the last one is not ended.
abbrev feed_lines : List ℕ → List (List ℕ)
feed_lines [] = [] ∷ []
feed_lines (c ∷ cs) = let rest = feed_lines cs in if c == 10 then [] ∷ rest else cons_line c rest

abbrev feed_first : List ℕ → Bool
feed_first [] = false
feed_first (c ∷ cs) = c == 10

-- The lines of an event stream as a client finds them: each is ended by a line feed, by a carriage
-- return or by the two in this order; the last one is not ended.
unfoldable pub stream_lines : List ℕ → List (List ℕ)
stream_lines [] = [] ∷ []
stream_lines (c ∷ cs) =
    let rest = stream_lines cs in
    if c == 10
    then [] ∷ rest
    else if c == 13
    then (if feed_first cs then rest else [] ∷ rest)
    else cons_line c rest

unfoldable pub has_return : List ℕ → Bool
has_return [] = false
has_return (c ∷ cs) = let rest = has_return cs in if c == 13 then true else rest

-- The rest of a text after a prefix.
abbrev pub after_prefix : (prefix text : List ℕ) → Option (List ℕ)
after_prefix [] text = some text
after_prefix (p ∷ ps) [] = none
after_prefix (p ∷ ps) (c ∷ cs) = let rest = after_prefix ps cs in if p == c then rest else none

-- What a client makes of the lines of a stream: the data of the first event, up to the empty line.
abbrev pub data_lines : List (List ℕ) → List (List ℕ)
data_lines [] = []
data_lines (l ∷ ls) =
    let rest = data_lines ls in
    elim l [
      | [] ↦ []
      | c ∷ cs ↦ elim (after_prefix (codes "data: ") (c ∷ cs)) [ none ↦ rest | some d ↦ d ∷ rest ]
    ]

abbrev prefixed : List ℕ → List ℕ
prefixed l = codes "data: " ++ l

abbrev rest_prefixed : List (List ℕ) → List (List ℕ)
rest_prefixed [] = []
rest_prefixed (l ∷ ls) = l ∷ map prefixed ls

feed_lines_some : (cs : List ℕ) → (l : List ℕ) × (ls : List (List ℕ)) × (feed_lines cs ≡ l ∷ ls)
feed_lines_some [] = ([], [], refl)
feed_lines_some (c ∷ cs) = line_of_some (feed_lines cs) (c == 10)
  where
    line_of_some :
        (rest : List (List ℕ)) (b : Bool)
        → (l : List ℕ) × (ls : List (List ℕ)) × ((if b then [] ∷ rest else cons_line c rest)
            ≡ l ∷ ls)
    line_of_some rest true = ([], rest, refl)
    line_of_some [] false = (c ∷ [], [], refl)
    line_of_some (l ∷ ls) false = (c ∷ l, ls, refl)

cons_line-rest_prefixed :
    (c : ℕ) (ls : List (List ℕ)) → cons_line c (rest_prefixed ls) ≡ rest_prefixed (cons_line c ls)
cons_line-rest_prefixed c [] = refl
cons_line-rest_prefixed c (l ∷ ls) = refl

safe_data_step :
    (c : ℕ) (cs l : List ℕ) (ls : List (List ℕ)) (b : Bool)
    → (c == 10) ≡ b
    → feed_lines cs ≡ l ∷ ls
    → feed_lines (safe_data cs) ≡ l ∷ map prefixed ls
    → feed_lines (safe_data (c ∷ cs)) ≡ rest_prefixed (feed_lines (c ∷ cs))
unfolding safe_data
safe_data_step c cs l ls true e k h = rw (e, h, k) refl
safe_data_step c cs l ls false e k h = rw (e, e, h, k) refl

feed_lines-safe_data : (cs : List ℕ) → feed_lines (safe_data cs) ≡ rest_prefixed (feed_lines cs)
unfolding safe_data
feed_lines-safe_data [] = refl
feed_lines-safe_data (c ∷ cs) =
    let (l, ls, some_line) = feed_lines_some cs in
    safe_data_step c cs l ls (c == 10) refl some_line
      (feed_lines-safe_data cs ∙ ap rest_prefixed some_line)

feed_lines-append_step :
    (c : ℕ) (cs l : List ℕ) (ls : List (List ℕ)) (b : Bool)
    → (c == 10) ≡ b
    → feed_lines cs ≡ l ∷ ls
    → feed_lines (cs ++ (10 ∷ 10 ∷ [])) ≡ (l ∷ ls) ++ ([] ∷ [] ∷ [])
    → feed_lines ((c ∷ cs) ++ (10 ∷ 10 ∷ [])) ≡ feed_lines (c ∷ cs) ++ ([] ∷ [] ∷ [])
feed_lines-append_step c cs l ls true e k h = rw (e, h, k) refl
feed_lines-append_step c cs l ls false e k h = rw (e, h, k) refl

feed_lines-append :
    (cs : List ℕ) → feed_lines (cs ++ (10 ∷ 10 ∷ [])) ≡ feed_lines cs ++ ([] ∷ [] ∷ [])
feed_lines-append [] = refl
feed_lines-append (c ∷ cs) =
    let (l, ls, some_line) = feed_lines_some cs in
    feed_lines-append_step c cs l ls (c == 10) refl some_line
      (feed_lines-append cs ∙ ap (λ rest. rest ++ ([] ∷ [] ∷ [])) some_line)

data_lines-map : (ls : List (List ℕ)) → data_lines (map prefixed ls ++ ([] ∷ [] ∷ [])) ≡ ls
data_lines-map [] = refl
data_lines-map (l ∷ ls) = ap (λ rest. l ∷ rest) (data_lines-map ls)

stream_lines-feed_lines : (cs : List ℕ) → has_return cs ≡ false → stream_lines cs ≡ feed_lines cs
unfolding stream_lines has_return
stream_lines-feed_lines [] h = refl
stream_lines-feed_lines (c ∷ cs) h = ground (arith, stream_lines-feed_lines cs)

has_return-append : (cs ds : List ℕ) → has_return ds ≡ false → has_return (cs ++ ds) ≡ has_return cs
unfolding has_return
has_return-append [] ds h = h
has_return-append (c ∷ cs) ds h = ground (arith, has_return-append cs ds h)

has_return-safe_data : (cs : List ℕ) → has_return cs ≡ false → has_return (safe_data cs) ≡ false
unfolding has_return safe_data
has_return-safe_data [] h = refl
has_return-safe_data (c ∷ cs) h = ground (arith, has_return-safe_data cs)

has_return-sse_text :
    (cs : List ℕ) → has_return cs ≡ false → has_return (sse_text (codes "stats") cs) ≡ false
unfolding has_return sse_text
has_return-sse_text cs h =
    has_return-append (safe_data cs) (codes "\n\n") refl ∙ has_return-safe_data cs h

data_lines-feed_lines :
    (cs : List ℕ) → data_lines (feed_lines (sse_text (codes "stats") cs)) ≡ feed_lines cs
unfolding sse_text
data_lines-feed_lines cs =
    let (l, ls, some_line) = feed_lines_some cs in
    let h = feed_lines-append (safe_data cs) in
    let k = feed_lines-safe_data cs in
    rw (h, k, some_line) (ap (λ rest. l ∷ rest) (data_lines-map ls))

-- What `writeSSE` writes for the event stats is read back if the data has no carriage return: the
-- data lines of the event, for a client that ends lines at line feeds, at carriage returns and at
-- both in this order, are the lines of the data.
pub data_lines-sse_text :
    (cs : List ℕ)
    → has_return cs ≡ false
    → data_lines (stream_lines (sse_text (codes "stats") cs)) ≡ stream_lines cs
data_lines-sse_text cs h =
    rw (stream_lines-feed_lines _ (has_return-sse_text cs h), stream_lines-feed_lines cs h)
      (data_lines-feed_lines cs)
