-- ===== src/Db/Schema/Statements.antt =====
-- A schema that is written as statements is executed as these statements.
use clusterprobe.Prelude.{
  ℕ, Bool, true, false, if◌then◌else◌, Option, none, some, List, [], ◌∷◌, ◌++◌, ◌==◌, ◌≡◌, ◌≢◌,
}
use clusterprobe.Go.Errors.{GoError}
use clusterprobe.Go.Strings.{trim_space, is_space}
use clusterprobe.Db.Schema.{wrapped}

unfoldable pub has_semicolon : List ℕ → Bool
has_semicolon [] = false
has_semicolon (c ∷ cs) = let rest = has_semicolon cs in if c == b';' then true else rest

unfoldable pub is_blank : List ℕ → Bool
is_blank [] = true
is_blank (c ∷ cs) = let rest = is_blank cs in if is_space c then rest else false

-- A statement without a semicolon and without white space at its ends.
pub record IsStatement (s : List ℕ) : Type 0 where
  pub whole : has_semicolon s ≡ false
  pub trimmed : trim_space s ≡ s
  pub nonempty : s ≢ []

-- A statement and the white space before it.
pub record Piece : Type 0 where
  pub space : List ℕ
  pub statement : List ℕ

pub record IsPiece (p : Piece) : Type 0 where
  pub blank : is_blank p.space ≡ true
  pub is_statement : IsStatement p.statement

-- Each statement after its white space and ended by a semicolon, and the white space at the end.
unfoldable pub render : List Piece → List ℕ → List ℕ
render [] end = end
render (p ∷ ps) end = p.space ++ (p.statement ++ (b';' ∷ render ps end))

module _ {W : Type 0} (exec : List ℕ → W → Option GoError × W) where
  -- The last statement of `run` failed with the error that `e` wraps.
  pub record Failed (e : GoError) (run : List (List ℕ)) : Type 0 where
    pub before : List (List ℕ)
    pub last : List ℕ
    pub world : W
    pub cause : GoError
    pub ends : run ≡ before ++ (last ∷ [])
    pub fails : (exec last world).0 ≡ some cause
    pub wraps : e ≡ wrapped "apply postgres schema" cause

  -- What may have been executed of `ss`: all, without an error, and else a first part, which ends
  -- with a statement that failed.
  pub Executed : List (List ℕ) → Option GoError → List (List ℕ) → Type 0
  Executed ss none run = run ≡ ss
  Executed ss (some e) run = Failed e run × ((rest : List (List ℕ)) × (run ++ rest ≡ ss))
