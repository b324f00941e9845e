-- ===== src/Worker/Tests.antt =====
-- cmd/worker at concrete inputs: a store that answers every status query with one document, and
-- services that accept every call.
use clusterprobe.Worker.Startup.{
  clients-IsPatient, new_consumer_with_retry, new_producer_with_retry, IsPatient,
}
use clusterprobe.Worker.Startup
use clusterprobe.Worker.Pool.{start_from, Started, End, start_consumers, queue_picker}
use clusterprobe.Prelude.{
  ltb, ℕ, ◌+◌, true, false, none, some, List, [], ◌∷◌, ◌≡◌, refl, if◌then◌else◌, leb,
}
use clusterprobe.Go.Int64.{pos, quot}
use clusterprobe.Go.Errors.{Result, ok, err, msg, canceled, wrapped}
use clusterprobe.Go.Json.{document}
use clusterprobe.Go.Strings.{is_space, trim_left, trim_space, fold_ascii, equal_fold_ascii}
use clusterprobe.Workload.Types.{ScenarioResponse}
use clusterprobe.Worker.Effects.{Env, State, Generator}
use clusterprobe.Worker.Reporting.{
  is_stopped_scenario_status, append_scenario_status, is_stopped, report_result,
}
use clusterprobe.Worker.Handler.{
  Generators, handle_message, find_generator, params_of, conclude, settle, run_scenario,
}
use clusterprobe.Worker.Conforms.{Agrees, handle_message-Agrees}
use clusterprobe.Worker.Stops.{saw_stop, older, handle_message-saw_stop}
use clusterprobe.Worker.Books.{counts_of, handle_message_books}
use clusterprobe.Worker.Poison.{IsPlain}
use clusterprobe.Worker.Watcher.{tick, ctx_done, Signal}

abbrev burn : ScenarioResponse
burn = record {
  id = "s1";
  name = "burn";
  profile = record {
    rps = pos 10;
    duration = pos 30000000000;
    payload_size_bytes = pos 0;
    concurrency = pos 2;
    target_queue = "workload.high";
    workload_type = "cpu_burn";
  };
  status = "queued";
  created_at = 5;
}

-- The world is the number of status queries so far. From the `k`-th on they answer with a stop.
abbrev willing : ℕ → Env ℕ
willing k = record {
  exec = λ q w. (none, w);
  query_latest = λ id w.
      (ok (document (if leb k w then record burn { status = " Stopped" } else burn)), w + 1);
  incr = λ key w. (none, w);
  publish = λ x key body w. (none, w);
  now = λ w. (7, w);
}

abbrev busy : Generator ℕ
busy params w = ((record { ops = pos 1000; duration = pos 30; error = "" }, none), w)

abbrev interrupted : Generator ℕ
interrupted params w =
    ((record { ops = pos 10; duration = pos 3; error = "" }, some (wrapped "context" canceled)), w)

abbrev generators : Generator ℕ → Generators ℕ
generators gen = ("cpu_burn", gen) ∷ []

abbrev outcome : ℕ → Generator ℕ → Result (Unit {0}) × State ℕ
outcome k gen =
    handle_message (willing k) (generators gen) (document burn) (record { world = 0; trace = [] })

status_folding : is_stopped_scenario_status " \tStoPPeD\n" ≡ true
unfolding is_stopped_scenario_status trim_space trim_left is_space equal_fold_ascii fold_ascii
status_folding = refl

completed_run : (outcome 9 busy).0 ≡ ok tt
unfolding handle_message run_scenario settle conclude find_generator is_stopped
    append_scenario_status report_result is_stopped_scenario_status trim_space trim_left is_space
    equal_fold_ascii fold_ascii params_of quot
completed_run = refl

completed_no_stop : saw_stop (outcome 9 busy).1.trace ≡ false
unfolding handle_message run_scenario settle conclude find_generator is_stopped
    append_scenario_status report_result is_stopped_scenario_status trim_space trim_left is_space
    equal_fold_ascii fold_ascii params_of quot
completed_no_stop = refl

handle_message-Agrees_example : Agrees burn (outcome 9 busy)
handle_message-Agrees_example = handle_message-Agrees (willing 9) (generators busy) burn 0

-- The stop arrives while the generator runs.
handle_message-saw_stop_example : saw_stop (older (outcome 1 interrupted).1.trace) ≡ false
handle_message-saw_stop_example =
    handle_message-saw_stop (willing 1) (generators interrupted) burn 0

handle_message_books_example :
    counts_of (outcome 9 busy).1.trace
    ≡ record { runs = 1; rows = 2; snapshots = 1; publications = 1 }
handle_message_books_example =
    handle_message_books (willing 9) (generators busy) burn 0 completed_run completed_no_stop

willing-IsPlain : IsPlain (willing 9)
willing-IsPlain = record {
  plain_exec = λ q w. refl;
  plain_query = λ id w. refl;
  plain_incr = λ key w. refl;
  plain_publish = λ x key body w. refl;
}

abbrev signals : List Signal
signals =
    tick (err (msg "connection refused"))
    ∷ tick (ok (document burn))
    ∷ tick (ok (document (record burn { status = "stopped" })))
    ∷ ctx_done
    ∷ []

-- A broker that refuses producers and takes three consumers.
abbrev small_broker : Startup.Env ℕ
small_broker = record {
  new_producer = λ w. (err (msg "refused"), w);
  new_consumer = λ prefetch w. (if ltb w 3 then ok w else err (msg "refused"), w + 1);
  wait = λ d w. (none, w);
}

abbrev no_ends : {W : Type 0} → List Started → W → List End × W
no_ends started w = ([], w)

-- The third of four consumers cannot be made: the two before it were started and stay.
third_refused :
    start_consumers queue_picker
      (λ w. (if ltb w 2 then ok w else err (msg "refused"), w + 1))
      no_ends
      4
      0
    ≡ record {
      error = some (wrapped "create consumer" (msg "refused"));
      ready = false;
      started =
          record { queue = "workload.high"; consumer = 0 }
          ∷ record { queue = "workload.low"; consumer = 1 }
          ∷ [];
      world = 3;
    }
unfolding start_consumers start_from queue_picker
third_refused = refl
