-- ===== src/Go/Action.antt =====
-- Code that changes a state and may return early with an error: `do` blocks for the source's
-- sequences of calls with `if err != nil { return err }` after each.
use clusterprobe.Prelude.{String}
use clusterprobe.Go.Errors.{Result, ok, err, wrapped}

abbrev pub Action : Type 0 → Type 0 → Type 0
Action S A = S → Result A × S

module _ {S : Type 0} where
  infixl 5 ◌>>=◌ ◌>>◌
  abbrev then_do : {A B : Type 0} → Result A × S → (A → Action S B) → Result B × S
  then_do (ok a, s) k = k a s
  then_do (err e, s) k = (err e, s)

  abbrev pub ◌>>=◌ : {A B : Type 0} → Action S A → (A → Action S B) → Action S B
  ◌>>=◌ m k s = then_do (m s) k

  abbrev pub ◌>>◌ : {B : Type 0} → Action S (Unit {0}) → Action S B → Action S B
  ◌>>◌ m k s = then_do (m s) (λ _. k)

  abbrev pub lift : {A : Type 0} → Result A → Action S A
  lift r s = (r, s)

  abbrev pub pass : {A : Type 0} → A → Action S A
  pass a s = (ok a, s)

  abbrev labelled : {A : Type 0} → String → Result A × S → Result A × S
  labelled label (ok a, s) = (ok a, s)
  labelled label (err e, s) = (err (wrapped label e), s)

  -- `fmt.Errorf("label: %w", err)` around a failing call.
  abbrev pub within : {A : Type 0} → String → Action S A → Action S A
  within label m s = labelled label (m s)
