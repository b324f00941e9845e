-- ===== src/Worker/Conforms.antt =====
-- `handleMessage` keeps to the protocol, whatever its calls answer.
use clusterprobe.Prelude.{
  zero, suc, if◌then◌else◌, ◌<>◌, Bool, true, false, Option, none, some, [], ◌∷◌, ◌≡◌, arith, refl,
}
use text.Mathlib.TextPositions.{eq_refl}
use clusterprobe.Go.Errors.{GoError, Result, ok, err, error_text}
use clusterprobe.Go.Int64.{ℤ, pos, negsuc, leb_ℤ, quot}
use clusterprobe.Go.Json.{document}
use clusterprobe.Workload.Types.{ScenarioResponse}
use clusterprobe.Workload.Params.{WorkResult}
use clusterprobe.Worker.Effects.{State, Env, Generator, did_run}
use clusterprobe.Worker.Reporting.{append_scenario_status, is_stopped, report_result}
use clusterprobe.Worker.Handler.{
  Generators, conclude, settle, run_scenario, start_scenario, handle_message, find_generator,
  params_of, terminal_status,
}
use clusterprobe.Worker.Protocol.{
  Phase, received, admitted, started, rechecking, executed, published, confirmed, completed,
  stopped, advance, replay, is_settled, is_open, after_run, given_time, row_of, snapshot_of,
  at_least_one, run_params,
}
use clusterprobe.Worker.Protocol.Documents.{
  same_scenario_refl, same_snapshot_refl, same_params_refl,
}

at_least_one-leb : (n : ℤ) → (if leb_ℤ n (pos 0) then pos 1 else n) ≡ at_least_one n
at_least_one-leb (pos zero) = refl
at_least_one-leb (pos (suc n)) = ground arith
at_least_one-leb (negsuc n) = ground arith

params_of-run_params : (scenario : ScenarioResponse) → params_of scenario ≡ run_params scenario
unfolding params_of run_params
params_of-run_params scenario =
    rw (at_least_one-leb (quot scenario.profile.payload_size_bytes 1048576)) refl

-- A part of the handler ends in phase `p`, or with an error in a phase that is open.
abbrev Reaches : {W : Type 0} {A : Type 0} → ScenarioResponse → Phase → Result A × State W → Type 0
Reaches scenario p (ok a, s) = replay scenario s.trace ≡ p
Reaches scenario p (err e, s) = is_open (replay scenario s.trace) ≡ true

module _ {W : Type 0} (env : Env W) where
  report_result-Reaches :
      (scenario : ScenarioResponse) (r : WorkResult) (s : State W)
      → replay scenario s.trace ≡ executed r
      → Reaches scenario (published r) (report_result env scenario r s)
  unfolding report_result replay advance snapshot_of
  report_result-Reaches scenario r s h = ground (
    arith,
    same_snapshot_refl (snapshot_of scenario r (env.now s.world).0),
    eq_refl ("cp:ops:" <> scenario.profile.workload_type),
    eq_refl ("results." <> scenario.id),
  )

  append-Reaches_running :
      (scenario : ScenarioResponse) (s : State W)
      → replay scenario s.trace ≡ admitted (given_time scenario)
      → Reaches scenario started (append_scenario_status env scenario "running" s)
  unfolding append_scenario_status replay advance row_of
  append-Reaches_running scenario s h = ground (
    arith,
    eq_refl scenario.id,
    same_scenario_refl (row_of scenario "running" scenario.created_at),
    same_scenario_refl (row_of scenario "running" (env.now s.world).0),
  )

  append-Reaches_terminal :
      (scenario : ScenarioResponse) (r : WorkResult) (s : State W)
      → replay scenario s.trace ≡ confirmed r (given_time scenario)
      → Reaches scenario completed (append_scenario_status env scenario (terminal_status r) s)
  unfolding append_scenario_status replay advance row_of
  append-Reaches_terminal scenario r s h = ground (
    arith,
    eq_refl scenario.id,
    same_scenario_refl (row_of scenario (terminal_status r) scenario.created_at),
    same_scenario_refl (row_of scenario (terminal_status r) (env.now s.world).0),
  )

-- A status query ends in `stopped` or in phase `p`.
abbrev Asked : {W : Type 0} → ScenarioResponse → Phase → Result Bool × State W → Type 0
Asked scenario p (ok true, s) = replay scenario s.trace ≡ stopped
Asked scenario p (ok false, s) = replay scenario s.trace ≡ p
Asked scenario p (err e, s) = is_open (replay scenario s.trace) ≡ true

module _ {W : Type 0} (env : Env W) where
  is_stopped-Asked_received :
      (scenario : ScenarioResponse) (s : State W)
      → replay scenario s.trace ≡ received
      → Asked scenario (admitted (given_time scenario)) (is_stopped env scenario.id s)
  unfolding is_stopped replay advance
  is_stopped-Asked_received scenario s h = ground (arith, eq_refl scenario.id)

  is_stopped-Asked_rechecking :
      (scenario : ScenarioResponse) (r : WorkResult) (s : State W)
      → replay scenario s.trace ≡ rechecking r
      → Asked scenario (executed r) (is_stopped env scenario.id s)
  unfolding is_stopped replay advance
  is_stopped-Asked_rechecking scenario r s h = ground (arith, eq_refl scenario.id)

  is_stopped-Asked_published :
      (scenario : ScenarioResponse) (r : WorkResult) (s : State W)
      → replay scenario s.trace ≡ published r
      → Asked scenario (confirmed r (given_time scenario)) (is_stopped env scenario.id s)
  unfolding is_stopped replay advance
  is_stopped-Asked_published scenario r s h = ground (arith, eq_refl scenario.id)

-- How a delivery ends: settled if it is acknowledged, in an open phase if it is not.
abbrev pub Agrees : {W : Type 0} → ScenarioResponse → Result (Unit {0}) × State W → Type 0
Agrees scenario (ok _, s) = is_settled (replay scenario s.trace) ≡ true
Agrees scenario (err e, s) = is_open (replay scenario s.trace) ≡ true

module _ {W : Type 0} (env : Env W) where
  conclude-Agrees :
      (scenario : ScenarioResponse) (r : WorkResult) (s : State W)
      → replay scenario s.trace ≡ executed r
      → Agrees scenario (conclude env scenario r s)
  unfolding conclude
  conclude-Agrees scenario r s h =
      let (r1, s1) = report_result env scenario r s in
      let (r2, s2) = is_stopped env scenario.id s1 in
      ground (
        arith,
        report_result-Reaches env scenario r s h,
        is_stopped-Asked_published env scenario r s1,
        append-Reaches_terminal env scenario r s2,
      )

  settle-Agrees :
      (scenario : ScenarioResponse) (r : WorkResult) (e : Option GoError) (s : State W)
      → replay scenario s.trace ≡ after_run r e
      → Agrees scenario (settle env scenario (r, e) s)
  unfolding settle
  settle-Agrees scenario r none s h = conclude-Agrees scenario r s h
  settle-Agrees scenario r (some e) s h =
      let (r1, s1) = is_stopped env scenario.id s in
      ground (
        arith,
        conclude-Agrees scenario (record r { error = error_text e }) s,
        conclude-Agrees scenario (record r { error = error_text e }) s1,
        is_stopped-Asked_rechecking env scenario (record r { error = error_text e }) s,
      )

  run_scenario-Agrees :
      (scenario : ScenarioResponse) (gen : Generator W) (s : State W)
      → replay scenario s.trace ≡ received
      → Agrees scenario (run_scenario env scenario gen s)
  unfolding run_scenario replay advance
  run_scenario-Agrees scenario gen s h =
      let (r1, s1) = is_stopped env scenario.id s in
      let (r2, s2) = append_scenario_status env scenario "running" s1 in
      let out = gen (params_of scenario) s2.world in
      let s3 : State W = record {
        world = out.1;
        trace = did_run (params_of scenario) out.0.0 out.0.1 ∷ s2.trace;
      } in
      ground (
        arith,
        params_of-run_params scenario,
        same_params_refl (run_params scenario),
        is_stopped-Asked_received env scenario s h,
        append-Reaches_running env scenario s1,
        settle-Agrees scenario out.0.0 out.0.1 s3,
      )

  start_scenario-Agrees :
      (gen : Option (Generator W)) (scenario : ScenarioResponse) (s : State W)
      → replay scenario s.trace ≡ received
      → Agrees scenario (start_scenario env gen scenario s)
  unfolding start_scenario
  start_scenario-Agrees none scenario s h = ground arith
  start_scenario-Agrees (some gen) scenario s h = run_scenario-Agrees scenario gen s h

  -- Whatever the store, the counters, the broker, the clock and the generators answer, the calls of
  -- a delivery that decodes to a scenario follow the protocol for this scenario: a delivery that is
  -- acknowledged ends with a terminal status written or a stop seen, and one that fails was given up
  -- before. No call breaks the protocol's order or is made with other arguments: the whole documents
  -- of the status rows and of the snapshot, stored and published, the parameters of the run, and the
  -- keys are the ones that the protocol derives from the scenario, the run's result and the clock.
  pub handle_message-Agrees :
      (gens : Generators W) (scenario : ScenarioResponse) (w : W)
      → Agrees scenario
          (handle_message env gens (document scenario) (record { world = w; trace = [] }))
  unfolding handle_message replay
  handle_message-Agrees gens scenario w =
      start_scenario-Agrees (find_generator scenario.profile.workload_type gens) scenario _ refl
