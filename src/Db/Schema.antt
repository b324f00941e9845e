-- ===== src/Db/Schema.antt =====
-- `splitSQLStatements` and `InitSchema` of internal/db/postgres.go, over code points.
pub mod Statements
use clusterprobe.Prelude.{ℕ, Option, none, some, List, [], ◌∷◌, ◌++◌, ◌==◌, if◌then◌else◌}
use clusterprobe.Go.Errors.{GoError, Result, ok, err, wrapped}
use clusterprobe.Go.Strings.{trim_space}

abbrev cons_first : ℕ → List (List ℕ) → List (List ℕ)
cons_first c [] = (c ∷ []) ∷ []
cons_first c (part ∷ parts) = (c ∷ part) ∷ parts

-- `strings.Split` at one character.
unfoldable pub split_at : ℕ → List ℕ → List (List ℕ)
split_at sep [] = [] ∷ []
split_at sep (c ∷ cs) = if c == sep then [] ∷ split_at sep cs else cons_first c (split_at sep cs)

abbrev pub keep : List ℕ → List (List ℕ) → List (List ℕ)
keep [] rest = rest
keep (c ∷ cs) rest = (c ∷ cs) ∷ rest

-- The loop over the parts.
unfoldable pub statements_of : List (List ℕ) → List (List ℕ)
statements_of [] = []
statements_of (part ∷ parts) = keep (trim_space part) (statements_of parts)

unfoldable pub split_sql_statements : List ℕ → List (List ℕ)
split_sql_statements sql = statements_of (split_at b';' sql)

-- The loop of `InitSchema`, with `Exec` and the statements executed so far, in their order.
module _ {W : Type 0} (exec : List ℕ → W → Option GoError × W) where
  after_exec :
      Option GoError × W
      → List (List ℕ)
      → (W → List (List ℕ) → Option GoError × (W × List (List ℕ)))
      → Option GoError × (W × List (List ℕ))
  after_exec (some e, w) run more = (some (wrapped "apply postgres schema" e), (w, run))
  after_exec (none, w) run more = more w run

  unfoldable pub apply_all :
      List (List ℕ) → W → List (List ℕ) → Option GoError × (W × List (List ℕ))
  unfolding after_exec
  apply_all [] w run = (none, (w, run))
  apply_all (stmt ∷ stmts) w run = after_exec (exec stmt w) (run ++ (stmt ∷ [])) (apply_all stmts)

  abbrev applied : Result (List ℕ) → W → Option GoError × (W × List (List ℕ))
  applied (err e) w = (some (wrapped "read postgres schema" e), (w, []))
  applied (ok sql) w = apply_all (split_sql_statements sql) w []

  -- `schema` is what reading the embedded file gives.
  unfoldable pub init_schema : Result (List ℕ) → W → Option GoError × (W × List (List ℕ))
  unfolding apply_all
  init_schema schema w = applied schema w
