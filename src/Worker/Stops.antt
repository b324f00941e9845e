-- ===== src/Worker/Stops.antt =====
-- What the protocol of a delivery means for stops and for the books that a delivery keeps.
use clusterprobe.Prelude.{
  Bool, true, false, ◌||◌, List, [], ◌∷◌, ◌≡◌, ◌≢◌, arith, refl, Bool-cases, inl, inr, ◌⊎◌,
}
use clusterprobe.Go.Errors.{Result, ok, err}
use clusterprobe.Go.Json.{document}
use clusterprobe.Workload.Types.{ScenarioResponse}
use clusterprobe.Worker.Effects.{State, Env, Event, did_query}
use clusterprobe.Worker.Reporting.{is_stopped_scenario_status}
use clusterprobe.Worker.Handler.{Generators, handle_message}
use clusterprobe.Worker.Protocol.{Phase, stopped, violated, advance, replay}
use clusterprobe.Worker.Conforms.{Agrees, handle_message-Agrees}

-- A status query that was answered with a stop.
abbrev pub answers_stop : Event → Bool
answers_stop (did_query id (ok (document s))) = is_stopped_scenario_status s.status
answers_stop _ = false

abbrev pub saw_stop : List Event → Bool
saw_stop [] = false
saw_stop (e ∷ es) = answers_stop e || saw_stop es

module _ (scenario : ScenarioResponse) where
  advance-answers_stop :
      (p : Phase) (e : Event)
      → answers_stop e ≡ true
      → (advance scenario p e ≡ stopped) ⊎ (advance scenario p e ≡ violated)
  unfolding advance
  advance-answers_stop p e h = ground arith

  advance-stopped :
      (p : Phase) (e : Event) → (p ≡ stopped) ⊎ (p ≡ violated) → advance scenario p e ≡ violated
  unfolding advance
  advance-stopped p e h = ground arith

  replay-saw_stop :
      (es : List Event)
      → saw_stop es ≡ true
      → (replay scenario es ≡ stopped) ⊎ (replay scenario es ≡ violated)
  unfolding replay
  replay-saw_stop [] h = ground arith
  replay-saw_stop (e ∷ es) h = elim (Bool-cases (answers_stop e)) [
    | inl now ↦ advance-answers_stop (replay scenario es) e now
    | inr later ↦ inr (advance-stopped (replay scenario es) e (replay-saw_stop es (ground arith)))
  ]

  -- In a trace that keeps to the protocol only the newest event can be the sight of a stop.
  saw_stop_last :
      (e : Event) (es : List Event) → replay scenario (e ∷ es) ≢ violated → saw_stop es ≡ false
  unfolding replay
  saw_stop_last e es h = elim (Bool-cases (saw_stop es)) [
    | inl seen ↦ absurd (h (advance-stopped (replay scenario es) e (replay-saw_stop es seen)))
    | inr unseen ↦ unseen
  ]

Agrees-allowed :
    {W : Type 0} (scenario : ScenarioResponse) (out : Result (Unit {0}) × State W)
    → Agrees scenario out
    → replay scenario out.1.trace ≢ violated
Agrees-allowed scenario (ok u, s) h = ground arith
Agrees-allowed scenario (err e, s) h = ground arith

-- The calls before the last one.
abbrev pub older : List Event → List Event
older [] = []
older (e ∷ es) = es

older-saw_stop :
    (scenario : ScenarioResponse) (es : List Event)
    → replay scenario es ≢ violated
    → saw_stop (older es) ≡ false
older-saw_stop scenario [] h = refl
older-saw_stop scenario (e ∷ es) h = saw_stop_last scenario e es h

-- Only the last of the handler's own calls, which leave out the queries of the stop watcher inside a
-- run, can have been answered with a stop: once one of the handler's own status queries is answered
-- so, the handler makes no further call for this delivery, so that no status is written over the stop
-- that it was told of, and nothing is run or reported after it.
pub handle_message-saw_stop :
    {W : Type 0} (env : Env W) (gens : Generators W) (scenario : ScenarioResponse) (w : W)
    → saw_stop (
        older
          (handle_message env gens (document scenario) (record { world = w; trace = [] })).1.trace)
      ≡ false
handle_message-saw_stop env gens scenario w =
    older-saw_stop scenario _
      (Agrees-allowed scenario _ (handle_message-Agrees env gens scenario w))
