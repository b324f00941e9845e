-- ===== src/System/Services/Orderly.antt =====
-- The order in which the services of cmd/ set up what they need, and in which they let it go.
use clusterprobe.Prelude.{some, List, [], ◌∷◌, ◌++◌, ◌≡◌}
use clusterprobe.Go.Errors.{GoError}
use clusterprobe.Go.Action.{Action, ◌>>=◌, ◌>>◌}
use clusterprobe.Config.{Config}
use clusterprobe.System.Services.{
  Event, Env, State, Ending, cancel_shutdown, did, exited, returned, attempt, acquire, ended,
}
use clusterprobe.System.Services.Plans.{Task, opens, does, call_of, done, put, ran}

module _ {W : Type 0} (env : Env W) where
  -- The tasks one after the other, and then `k`.
  abbrev followed : List Task → Action (State W) (Unit {0}) → Action (State W) (Unit {0})
  followed [] k = k
  followed (opens c ∷ ts) k = do acquire env c; followed ts k
  followed (does c ∷ ts) k = do attempt env c; followed ts k

  -- The end of the tasks `ts` from a state `s`.
  data Ends (service : List Event → Type 0) (ts : List Task) (s : State W)
      : Ending → List Event → Type 0 where
    fails_at :
        (before : List Task) (t : Task) (after : List Task) (e : GoError)
        → ts ≡ before ++ t ∷ after
        → Ends service ts s (exited 1 e) (did (call_of t) (some e) ∷ done before s.trace)
    ends_well :
        (during : List Event)
        → service during
        → Ends service ts s returned
            (ran (cancel_shutdown ∷ put ts s.deferred) (during ++ done ts s.trace))

  Goal :
      (service : List Event → Type 0) (ts : List Task) (s : State W)
      (m : Action (State W) (Unit {0}))
      → Type 0
  Goal service ts s m = let (end, t) = ended env (m s) in Ends service ts s end t.trace
