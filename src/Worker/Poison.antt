-- ===== src/Worker/Poison.antt =====
-- Which deliveries `handleMessage` refuses for good.
use clusterprobe.Prelude.{String, Bool, true, false, not, Option, none, some, ◌∷◌, ◌≡◌, arith, refl}
use clusterprobe.Go.Errors.{GoError, Result, ok, err, as_unrecoverable, error_text}
use clusterprobe.Go.Json.{Payload, document, malformed}
use clusterprobe.Workload.Types.{ScenarioResponse}
use clusterprobe.Workload.Params.{WorkResult}
use clusterprobe.Worker.Effects.{State, Env, Statement, Snapshot, Generator, did_run}
use clusterprobe.Worker.Reporting.{append_scenario_status, is_stopped, report_result}
use clusterprobe.Worker.Handler.{
  Generators, handle_message, conclude, settle, run_scenario, start_scenario, find_generator,
  params_of, terminal_status,
}

-- A message that no redelivery can help: it does not decode, or nothing runs its workload type.
abbrev pub is_missing : {A : Type 0} → Option A → Bool
is_missing none = true
is_missing (some a) = false

abbrev pub is_poison : {W : Type 0} → Generators W → Payload ScenarioResponse → Bool
is_poison gens (malformed text) = true
is_poison gens (document s) = is_missing (find_generator s.profile.workload_type gens)

abbrev pub is_plain_error : Option GoError → Bool
is_plain_error none = true
is_plain_error (some e) = not (as_unrecoverable e)

abbrev pub is_plain_result : {A : Type 0} → Result A → Bool
is_plain_result (ok a) = true
is_plain_result (err e) = not (as_unrecoverable e)

-- The store, the counters and the broker do not return an `UnrecoverableError`, which is a type of
-- the messaging package.
pub record IsPlain {W : Type 0} (env : Env W) : Type 0 where
  pub plain_exec : (q : Statement) (w : W) → is_plain_error (env.exec q w).0 ≡ true
  pub plain_query : (id : String) (w : W) → is_plain_result (env.query_latest id w).0 ≡ true
  pub plain_incr : (key : String) (w : W) → is_plain_error (env.incr key w).0 ≡ true
  pub plain_publish :
      (exchange key : String) (body : Payload Snapshot) (w : W)
      → is_plain_error (env.publish exchange key body w).0 ≡ true

module _ {W : Type 0} (env : Env W) (plain : IsPlain env) where
  is_stopped_plain : (id : String) (s : State W) → is_plain_result (is_stopped env id s).0 ≡ true
  unfolding is_stopped as_unrecoverable
  is_stopped_plain id s = ground (arith, plain.plain_query id s.world)

  append_plain :
      (scenario : ScenarioResponse) (status : String) (s : State W)
      → is_plain_result (append_scenario_status env scenario status s).0 ≡ true
  unfolding append_scenario_status as_unrecoverable
  append_plain scenario status s = grind (arith, plain.plain_exec)

  report_result_plain :
      (scenario : ScenarioResponse) (r : WorkResult) (s : State W)
      → is_plain_result (report_result env scenario r s).0 ≡ true
  unfolding report_result as_unrecoverable
  report_result_plain scenario r s =
      grind (arith, plain.plain_exec, plain.plain_incr, plain.plain_publish)

  conclude_plain :
      (scenario : ScenarioResponse) (r : WorkResult) (s : State W)
      → is_plain_result (conclude env scenario r s).0 ≡ true
  unfolding conclude as_unrecoverable
  conclude_plain scenario r s =
      let (r1, s1) = report_result env scenario r s in
      let (r2, s2) = is_stopped env scenario.id s1 in
      ground (
        arith,
        report_result_plain scenario r s,
        is_stopped_plain scenario.id s1,
        append_plain scenario (terminal_status r) s2,
      )

  settle_plain :
      (scenario : ScenarioResponse) (out : WorkResult × Option GoError) (s : State W)
      → is_plain_result (settle env scenario out s).0 ≡ true
  unfolding settle as_unrecoverable
  settle_plain scenario (r, none) s = conclude_plain scenario r s
  settle_plain scenario (r, some e) s =
      let (r1, s1) = is_stopped env scenario.id s in
      ground (
        arith,
        is_stopped_plain scenario.id s,
        conclude_plain scenario (record r { error = error_text e }) s,
        conclude_plain scenario (record r { error = error_text e }) s1,
      )

  run_scenario_plain :
      (scenario : ScenarioResponse) (gen : Generator W) (s : State W)
      → is_plain_result (run_scenario env scenario gen s).0 ≡ true
  unfolding run_scenario as_unrecoverable
  run_scenario_plain scenario gen s =
      let (r1, s1) = is_stopped env scenario.id s in
      let (r2, s2) = append_scenario_status env scenario "running" s1 in
      let out = gen (params_of scenario) s2.world in
      let s3 : State W = record {
        world = out.1;
        trace = did_run (params_of scenario) out.0.0 out.0.1 ∷ s2.trace;
      } in
      ground (
        arith,
        is_stopped_plain scenario.id s,
        append_plain scenario "running" s1,
        settle_plain scenario out.0 s3,
      )

-- Whether an error is for good.
abbrev pub is_for_good : Result (Unit {0}) → Bool
is_for_good (ok u) = false
is_for_good (err e) = as_unrecoverable e

plain-is_for_good : (r : Result (Unit {0})) → is_plain_result r ≡ true → is_for_good r ≡ false
plain-is_for_good r h = ground arith

start_scenario-is_for_good :
    {W : Type 0} (env : Env W) (gen : Option (Generator W)) (scenario : ScenarioResponse)
    (s : State W)
    → IsPlain env
    → is_for_good (start_scenario env gen scenario s).0 ≡ is_missing gen
unfolding start_scenario as_unrecoverable
start_scenario-is_for_good env none scenario s plain = refl
start_scenario-is_for_good env (some gen) scenario s plain =
    plain-is_for_good (run_scenario env scenario gen s).0
      (run_scenario_plain env plain scenario gen s)

-- A delivery is refused as unrecoverable exactly if it does not decode or no generator runs its
-- workload type, provided that no outside call returns an `UnrecoverableError` itself.
pub handle_message-is_for_good :
    {W : Type 0} (env : Env W) (gens : Generators W) (body : Payload ScenarioResponse) (s : State W)
    → IsPlain env
    → is_for_good (handle_message env gens body s).0 ≡ is_poison gens body
unfolding handle_message as_unrecoverable
handle_message-is_for_good env gens (malformed text) s plain = refl
handle_message-is_for_good env gens (document scenario) s plain =
    start_scenario-is_for_good env (find_generator scenario.profile.workload_type gens) scenario s
      plain
