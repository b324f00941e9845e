-- ===== src/Worker/Books.antt =====
-- What an acknowledged delivery has entered in the books: rows, counters and messages.
use clusterprobe.Prelude.{
  ℕ, ◌+◌, Bool, true, false, Option, none, some, List, [], ◌∷◌, ◌≡◌, arith, ◌⊎◌, inl, inr,
}
use clusterprobe.Go.Errors.{GoError, Result, ok, err}
use clusterprobe.Go.Json.{document}
use clusterprobe.Workload.Types.{ScenarioResponse}
use clusterprobe.Worker.Effects.{
  State, Env, Event, did_exec, did_publish, did_run, insert_scenario, insert_snapshot,
}
use clusterprobe.Worker.Handler.{Generators, handle_message}
use clusterprobe.Worker.Protocol.{
  Phase, stopped, violated, completed, aborted, advance, replay, is_settled, received, admitted,
  started, rechecking, executed, dated, published, confirmed,
}
use clusterprobe.Worker.Stops.{answers_stop, saw_stop}
use clusterprobe.Worker.Conforms.{Agrees, handle_message-Agrees}

abbrev succeeded : Option GoError → ℕ
succeeded none = 1
succeeded (some e) = 0

-- What one call enters: runs, scenario rows, snapshots, counter increments, published results.
abbrev runs_in : Event → ℕ
runs_in (did_run params r e) = 1
runs_in _ = 0

abbrev rows_in : Event → ℕ
rows_in (did_exec (insert_scenario id p) e) = succeeded e
rows_in _ = 0

abbrev snapshots_in : Event → ℕ
snapshots_in (did_exec (insert_snapshot p) e) = succeeded e
snapshots_in _ = 0

abbrev published_in : Event → ℕ
published_in (did_publish x key body e) = succeeded e
published_in _ = 0

-- The sum of a count over a trace.
abbrev pub tally : (Event → ℕ) → List Event → ℕ
tally f [] = 0
tally f (e ∷ es) = f e + tally f es

-- The counts in a phase from which the delivery can still be completed.
pub record Counts : Type 0 where
  pub runs : ℕ
  pub rows : ℕ
  pub snapshots : ℕ
  pub publications : ℕ

abbrev pub counts_of : List Event → Counts
counts_of es = record {
  runs = tally runs_in es;
  rows = tally rows_in es;
  snapshots = tally snapshots_in es;
  publications = tally published_in es;
}

abbrev counts : ℕ → ℕ → ℕ → ℕ → Counts
counts a b c d = record { runs = a; rows = b; snapshots = c; publications = d }

-- The phases from which the delivery can still be completed, and the last one.
abbrev is_definite : Phase → Bool
is_definite stopped = false
is_definite aborted = false
is_definite violated = false
is_definite _ = true

abbrev expected : Phase → Counts
expected received = counts 0 0 0 0
expected (admitted t) = counts 0 0 0 0
expected started = counts 0 1 0 0
expected (rechecking r) = counts 1 1 0 0
expected (executed r) = counts 1 1 0 0
expected (dated r t) = counts 1 1 0 0
expected (published r) = counts 1 1 1 1
expected (confirmed r t) = counts 1 1 1 1
expected completed = counts 1 2 1 1
expected _ = counts 1 1 1 0

module _ (scenario : ScenarioResponse) where
  expected-advance :
      (p : Phase) (e : Event) (es : List Event)
      → (is_definite p ≡ true → counts_of es ≡ expected p)
      → is_definite (advance scenario p e) ≡ true
      → counts_of (e ∷ es) ≡ expected (advance scenario p e)
  unfolding advance
  expected-advance p e es h k = ground arith

  expected-replay :
      (es : List Event)
      → is_definite (replay scenario es) ≡ true
      → counts_of es ≡ expected (replay scenario es)
  unfolding replay
  expected-replay [] h = ground arith
  expected-replay (e ∷ es) h = expected-advance (replay scenario es) e es (expected-replay es) h

  completed_counts :
      (es : List Event) → replay scenario es ≡ completed → counts_of es ≡ counts 1 2 1 1
  completed_counts es h = ground (arith, expected-replay es)

  advance-stopped_from :
      (p : Phase) (e : Event) → advance scenario p e ≡ stopped → answers_stop e ≡ true
  unfolding advance
  advance-stopped_from p e h = ground arith

  replay-stopped_from : (es : List Event) → replay scenario es ≡ stopped → saw_stop es ≡ true
  unfolding replay
  replay-stopped_from [] h = cc
  replay-stopped_from (e ∷ es) h = rw (advance-stopped_from (replay scenario es) e h)

is_settled-cases : (p : Phase) → is_settled p ≡ true → (p ≡ completed) ⊎ (p ≡ stopped)
is_settled-cases p h = ground arith

Agrees-cases :
    {W : Type 0} (scenario : ScenarioResponse) (out : Result (Unit {0}) × State W)
    → Agrees scenario out
    → out.0 ≡ ok tt
    → (replay scenario out.1.trace ≡ completed) ⊎ (replay scenario out.1.trace ≡ stopped)
Agrees-cases scenario (ok u, s) h k = is_settled-cases _ h
Agrees-cases scenario (err e, s) h k = cc

-- A delivery that is acknowledged without the sight of a stop has run its generator once, written
-- two scenario rows (running and the terminal status), stored one snapshot and published one result.
pub handle_message_books :
    {W : Type 0} (env : Env W) (gens : Generators W) (scenario : ScenarioResponse) (w : W)
    → (handle_message env gens (document scenario) (record { world = w; trace = [] })).0 ≡ ok tt
    → saw_stop
        (handle_message env gens (document scenario) (record { world = w; trace = [] })).1.trace
      ≡ false
    → counts_of
        (handle_message env gens (document scenario) (record { world = w; trace = [] })).1.trace
      ≡ record { runs = 1; rows = 2; snapshots = 1; publications = 1 }
handle_message_books env gens scenario w h k =
    elim (Agrees-cases scenario _ (handle_message-Agrees env gens scenario w) h) [
      | inl done ↦ completed_counts scenario _ done
      | inr seen ↦ cc (replay-stopped_from scenario _ seen)
    ]
