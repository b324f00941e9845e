-- ===== src/Chaos/Client/Lookup.antt =====
-- How the client finds an experiment among the resources.
use clusterprobe.Prelude.{
  String, Bool, true, false, ◌||◌, List, [], ◌∷◌, str_eq, str_eq_iff, if◌then◌else◌, ◌≡◌, ◌≢◌,
  arith, inl, inr, Bool-cases,
}
use text.Mathlib.TextPositions.{eq_refl}
use clusterprobe.Go.Errors.{Result, ok, err}
use clusterprobe.Chaos.Types.{ExperimentStatus, Object}
use clusterprobe.Chaos.Phases.{Parsers, status_from_object_at}
use clusterprobe.Chaos.Client.{Env, found, missing, status_loop, status, status_now}

-- Whether a pair of kind and resource is in the list.
abbrev pub has_gvr : (kind resource : String) → List (String × String) → Bool
has_gvr kind resource [] = false
has_gvr kind resource ((k, r) ∷ gvrs) =
    (if str_eq k kind then str_eq r resource else false) || has_gvr kind resource gvrs

-- The status of the object, under the kind.
abbrev pub Finds : String → Object → Result ExperimentStatus → Type 0
Finds kind obj (ok st) = (st.kind ≡ kind) × (st.id ≡ obj.name) × (st.namespace ≡ obj.namespace)
Finds kind obj (err e) = ⊥

module _ {W S : Type 0} (parsers : Parsers) (env : Env W S) (namespace id resource kind : String)
    (obj : Object) (there : (v : W) → (env.get resource namespace id v).0 ≡ found obj)
    (nowhere_else : (r : String) (v : W)
      → str_eq r resource ≡ false
      → (env.get r namespace id v).0 ≡ missing) where
  status_loop-Finds :
      (order : List (String × String)) (w : W)
      → has_gvr kind resource order ≡ true
      → ((k : String) → has_gvr k resource order ≡ true → k ≡ kind)
      → Finds kind obj (status_loop parsers env namespace order id w).0
  unfolding status_loop status_now status_from_object_at
  status_loop-Finds [] w m n = cc
  status_loop-Finds ((k, r) ∷ order) w m n = elim (Bool-cases (str_eq r resource)) [
    | inl same ↦
        ground (
          arith,
          there w,
          str_eq_iff r resource,
          str_eq_iff k kind,
          n k,
          eq_refl k,
          eq_refl resource,
        )
    | inr other ↦
        let v : W = (env.get r namespace id w).1 in
        ground (
          arith,
          nowhere_else r w other,
          status_loop-Finds order v (ground arith) (λ j h. n j (ground arith)),
        )
  ]

-- If exactly one resource has the experiment, `Status` finds it there and reports it under that
-- resource's kind, in whatever order the map of resources is gone through.
pub status_any_order :
    {W S : Type 0} (parsers : Parsers) (env : Env W S) (namespace id resource kind : String)
    (obj : Object) (order : List (String × String)) (w : W)
    → id ≢ ""
    → ((v : W) → (env.get resource namespace id v).0 ≡ found obj)
    → ((r : String) (v : W) → str_eq r resource ≡ false → (env.get r namespace id v).0 ≡ missing)
    → has_gvr kind resource order ≡ true
    → ((k : String) → has_gvr k resource order ≡ true → k ≡ kind)
    → Finds kind obj (status parsers env namespace order id w).0
unfolding status
status_any_order parsers env namespace id resource kind obj order w h there nowhere_else m n =
    ground (
      arith,
      str_eq_iff id "",
      status_loop-Finds parsers env namespace id resource kind obj there nowhere_else order w m n,
    )
