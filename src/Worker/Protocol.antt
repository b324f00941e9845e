-- ===== src/Worker/Protocol.antt =====
-- The protocol of one delivery: what the worker may do next, given what it has done and what it was
-- answered. It is written from the documentation of the scenario life cycle, as an automaton over
-- the trace, and shares with cmd/worker the vocabulary of calls and the test for a stop.
pub mod Documents
use clusterprobe.Prelude.{
  zero, suc, ◌==◌, String, Bool, true, false, Option, none, some, List, [], ◌∷◌, str_eq, ◌&&◌, ◌<>◌,
  if◌then◌else◌,
}
use clusterprobe.Go.Errors.{GoError, Result, ok, err, error_text, is_canceled}
use clusterprobe.Go.Json.{Payload, document, malformed}
use clusterprobe.Workload.Types.{ScenarioResponse, Time, is_empty}
use clusterprobe.Workload.Params.{WorkResult, WorkloadParams}
use clusterprobe.Go.Int64.{ℤ, pos, negsuc, quot}
use clusterprobe.Worker.Protocol.Documents.{same_scenario, same_snapshot, same_params}
use clusterprobe.Worker.Effects.{
  Snapshot, insert_scenario, insert_snapshot, Event, did_exec, did_query, did_incr, did_publish,
  did_run, did_now,
}
use clusterprobe.Worker.Reporting.{is_stopped_scenario_status}

-- What the run has returned, with the text of its error, and the time that the clock has told or the
-- scenario has.
pub data Phase : Type 0 where
  -- taken from the queue
  received : Phase
  -- seen not to be stopped
  admitted : Option Time → Phase
  -- marked as running
  started : Phase
  -- canceled, and the status is to be asked for again
  rechecking : WorkResult → Phase
  -- run
  executed : WorkResult → Phase
  -- clock read; snapshot stored; total counted; type counted; result counted in full
  dated stored total_counted type_counted counted : WorkResult → Time → Phase
  -- snapshot published
  published : WorkResult → Phase
  -- seen not to be stopped after the report
  confirmed : WorkResult → Option Time → Phase
  -- terminal status written; seen to be stopped
  completed stopped : Phase
  -- a call failed
  aborted : Phase
  -- a call that the protocol does not allow
  violated : Phase

-- The answer to a status query, when the protocol goes on with `next` unless it is a stop.
abbrev verdict : Result (Payload ScenarioResponse) → Phase → Phase
verdict (err e) next = aborted
verdict (ok (malformed text)) next = aborted
verdict (ok (document s)) next = if is_stopped_scenario_status s.status then stopped else next

abbrev unless_failed : Option GoError → Phase → Phase
unless_failed none next = next
unless_failed (some e) next = aborted

abbrev expected_status : String → String
expected_status error = if is_empty error then "completed" else "failed"

-- The time of a row, where the scenario has one.
abbrev pub given_time : ScenarioResponse → Option Time
given_time scenario = if scenario.created_at == 0 then none else some scenario.created_at

-- The row that is written for a status, the snapshot of a run, and the parameters of a run.

unfoldable pub row_of : ScenarioResponse → String → Time → ScenarioResponse
row_of scenario status t = record {
  id = scenario.id;
  name = scenario.name;
  profile = scenario.profile;
  status = status;
  created_at = t;
}

unfoldable pub snapshot_of : ScenarioResponse → WorkResult → Time → Snapshot
snapshot_of scenario r t = record {
  scenario_id = scenario.id;
  workload = scenario.profile.workload_type;
  ops = r.ops;
  duration_ms = quot r.duration 1000000;
  error = r.error;
  timestamp = t;
}

abbrev pub at_least_one : ℤ → ℤ
at_least_one (pos zero) = pos 1
at_least_one (pos (suc n)) = pos (suc n)
at_least_one (negsuc n) = pos 1

unfoldable pub run_params : ScenarioResponse → WorkloadParams
run_params scenario = record {
  scenario_id = scenario.id;
  workload_type = scenario.profile.workload_type;
  duration_ms = quot scenario.profile.duration 1000000;
  alloc_mb = at_least_one (quot scenario.profile.payload_size_bytes 1048576);
  batch_size = scenario.profile.concurrency;
  read_lookback_ms = pos 300000;
  mixed_profile = record { cpu_percent = pos 0; db_write_percent = pos 0; db_read_percent = pos 0 };
}

abbrev pub after_run : WorkResult → Option GoError → Phase
after_run r none = executed r
after_run r (some e) =
    if is_canceled e
    then rechecking (record r { error = error_text e })
    else executed (record r { error = error_text e })

module _ (scenario : ScenarioResponse) where
  unfoldable pub advance : Phase → Event → Phase
  advance received (did_query id r) =
      if str_eq id scenario.id then verdict r (admitted (given_time scenario)) else violated
  advance (admitted none) (did_now t) = admitted (some t)
  advance (admitted (some t)) (did_exec (insert_scenario id (document s)) e) =
      if str_eq id scenario.id && same_scenario s (row_of scenario "running" t)
      then unless_failed e started
      else violated
  advance started (did_run params r e) =
      if same_params params (run_params scenario) then after_run r e else violated
  advance (rechecking r) (did_query id a) =
      if str_eq id scenario.id then verdict a (executed r) else violated
  advance (executed r) (did_now t) = dated r t
  advance (dated r t) (did_exec (insert_snapshot (document s)) e) =
      if same_snapshot s (snapshot_of scenario r t) then unless_failed e (stored r t) else violated
  advance (stored r t) (did_incr key e) =
      if str_eq key "cp:ops:total" then unless_failed e (total_counted r t) else violated
  advance (total_counted r t) (did_incr key e) =
      if str_eq key ("cp:ops:" <> scenario.profile.workload_type)
      then unless_failed e (if is_empty r.error then counted r t else type_counted r t)
      else violated
  advance (type_counted r t) (did_incr key e) =
      if str_eq key "cp:errors:total" then unless_failed e (counted r t) else violated
  advance (counted r t) (did_publish exchange key (document s) e) =
      if str_eq exchange "clusterprobe.events"
        && (str_eq key ("results." <> scenario.id) && same_snapshot s (snapshot_of scenario r t))
      then unless_failed e (published r)
      else violated
  advance (published r) (did_query id a) =
      if str_eq id scenario.id then verdict a (confirmed r (given_time scenario)) else violated
  advance (confirmed r none) (did_now t) = confirmed r (some t)
  advance (confirmed r (some t)) (did_exec (insert_scenario id (document s)) e) =
      if str_eq id scenario.id && same_scenario s (row_of scenario (expected_status r.error) t)
      then unless_failed e completed
      else violated
  advance _ _ = violated

  -- The phase after a trace, whose newest event stands first.
  unfoldable pub replay : List Event → Phase
  replay [] = received
  replay (e ∷ es) = advance (replay es) e

-- Nothing is left to do.
abbrev pub is_settled : Phase → Bool
is_settled completed = true
is_settled stopped = true
is_settled _ = false

-- The delivery was given up on the way, by the rules.
abbrev pub is_open : Phase → Bool
is_open completed = false
is_open stopped = false
is_open violated = false
is_open _ = true
