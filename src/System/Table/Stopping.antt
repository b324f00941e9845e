-- ===== src/System/Table/Stopping.antt =====
-- Whether the workers see that `StopScenario` has stopped a scenario.
use clusterprobe.Prelude.{
  ℕ, ◌≤◌, ◌≡◌, refl, arith, String, Bool, true, false, none, some, Option, List, [], ◌∷◌, str_eq,
  str_eq_iff, if◌then◌else◌, Each,
}
use clusterprobe.Go.Json.{Payload}
use clusterprobe.Workload.Types.{ScenarioResponse}
use clusterprobe.Go.Errors.{ok}
use clusterprobe.Go.Strings.{trim_space, equal_fold_ascii, is_space, fold_ascii, trim_left}
use clusterprobe.Api.Http.{goes}
use clusterprobe.Api.Scenarios.{stop_scenario}
use clusterprobe.Api.Scenarios.Creating.{stopped_seen}
use clusterprobe.Worker.Watcher.{sees_stop}
use clusterprobe.Worker.Reporting.{is_stopped, append_scenario_status, is_stopped_scenario_status}
use clusterprobe.Worker.Effects
use clusterprobe.System.Table.{
  payload_of, Entry, Table, insert, is_before, first_of, latest, IsRow, IsTable, Others, api_env,
  worker_env,
}

abbrev Fits : Table → Option Entry → Type 0
Fits t none = Unit
Fits t (some e) = IsRow t e

first_of-Fits :
    (t : Table) (e : Entry) (o : Option Entry) → IsRow t e → Fits t o → Fits t (some (first_of e o))
first_of-Fits t e none row fits = row
first_of-Fits t e (some f) row fits = first_of_two (is_before e f)
  where
    first_of_two : (b : Bool) → IsRow t (if b then e else f)
    first_of_two true = row
    first_of_two false = fits

if-Fits :
    (t : Table) (b : Bool) (o rest : Option Entry)
    → Fits t o
    → Fits t rest
    → Fits t (if b then o else rest)
if-Fits t true o rest fits others = fits
if-Fits t false o rest fits others = others

latest-Fits :
    (t : Table) (id : String) (es : List Entry) → Each (IsRow t) es → Fits t (latest id es)
unfolding latest
latest-Fits t id [] rows = tt
latest-Fits t id (e ∷ es) rows =
    let rest = latest-Fits t id es rows.1 in
    if-Fits t (str_eq e.scenario_id id) (some (first_of e (latest id es))) (latest id es)
      (first_of-Fits t e (latest id es) rows.0 rest) rest

first_of-new :
    (t : Table) (e : Entry) (o : Option Entry)
    → e.serial ≡ t.next_serial
    → e.created_at ≡ t.clock
    → Fits t o
    → first_of e o ≡ e
first_of-new t e none n c fits = refl
first_of-new t e (some f) n c fits = ground (arith, fits.numbered, fits.past)

-- In a table whose ids and times do not run ahead, the row that was inserted last for a scenario is
-- its latest row.
pub latest-insert :
    (t : Table) (id : String) (p : Payload ScenarioResponse)
    → IsTable t
    → latest id (insert id p t).entries
      ≡ some
          (record { serial = t.next_serial; scenario_id = id; payload = p; created_at = t.clock })
unfolding latest insert
latest-insert t id p table =
    let new : Entry = record {
      serial = t.next_serial;
      scenario_id = id;
      payload = p;
      created_at = t.clock;
    } in
    rw
      ((str_eq_iff id id).1 refl, first_of-new t new _ refl refl (latest-Fits t id t.entries table))
      refl

rows_stay :
    (t u : Table) (es : List Entry)
    → t.next_serial ≤ u.next_serial
    → t.clock ≤ u.clock
    → Each (IsRow t) es
    → Each (IsRow u) es
rows_stay t u [] n c rows = tt
rows_stay t u (e ∷ es) n c rows = (
  record { numbered = omega (arith, rows.0.numbered); past = omega (arith, rows.0.past) },
  rows_stay t u es n c rows.1,
)

pub insert-IsTable :
    (t : Table) (id : String) (p : Payload ScenarioResponse) → IsTable t → IsTable (insert id p t)
unfolding insert
insert-IsTable t id p table = (
  record { numbered = omega arith; past = omega arith },
  rows_stay t (insert id p t) t.entries (omega arith) (omega arith) table,
)

inserted_stop :
    (t : Table) (id : String) (p : Payload ScenarioResponse)
    → IsTable t
    → sees_stop (payload_of (latest id (insert id p t).entries)) ≡ sees_stop (ok p)
inserted_stop t id p table = rw (latest-insert t id p table) refl

module _ (others : Others) where
  is_stopped-seen :
      (id : String) (s : Effects.State Table)
      → sees_stop (payload_of (latest id s.world.entries)) ≡ true
      → (is_stopped (worker_env others) id s).0 ≡ ok true
  unfolding is_stopped worker_env sees_stop
  is_stopped-seen id s h = grind arith

stop_scenario-latest :
    (others : Others) (id : String) (t : Table) (code : ℕ) (resp : ScenarioResponse)
    → IsTable t
    → (stop_scenario (api_env others) id (record { world = t; trace = [] })).0 ≡ goes (code, resp)
    → sees_stop (
        payload_of (
          latest id
            (stop_scenario (api_env others) id (record { world = t; trace = [] })).1.world.entries))
      ≡ true
unfolding stop_scenario api_env sees_stop
stop_scenario-latest others id t code resp table h = grind (arith, stopped_seen, inserted_stop t id)

stop_scenario-IsTable :
    (others : Others) (id : String) (t : Table)
    → IsTable t
    → IsTable (stop_scenario (api_env others) id (record { world = t; trace = [] })).1.world
unfolding stop_scenario api_env
stop_scenario-IsTable others id t table = grind (arith, insert-IsTable t id)

appended_row :
    (others : Others) (scenario : ScenarioResponse) (status : String) (s : Effects.State Table)
    → IsTable s.world
    → is_stopped_scenario_status status ≡ false
    → (append_scenario_status (worker_env others) scenario status s).0 ≡ ok tt
    → (is_stopped
        (worker_env others)
        scenario.id
        (append_scenario_status (worker_env others) scenario status s).1).0
      ≡ ok false
unfolding append_scenario_status is_stopped worker_env
appended_row others scenario status s table h k = grind (arith, latest-insert s.world scenario.id)

-- The table after `StopScenario`.
abbrev pub after_stop : Others → String → Table → Table
after_stop others id t =
    (stop_scenario (api_env others) id (record { world = t; trace = [] })).1.world

-- After `StopScenario` has answered with the stopped document, the workers see the stop in the table,
-- if its ids and times did not run ahead before.
pub stop_scenario-is_stopped :
    (others : Others) (id : String) (t : Table) (code : ℕ) (resp : ScenarioResponse)
    → IsTable t
    → (stop_scenario (api_env others) id (record { world = t; trace = [] })).0 ≡ goes (code, resp)
    → (is_stopped (worker_env others) id (record { world = after_stop others id t; trace = [] })).0
      ≡ ok true
stop_scenario-is_stopped others id t code resp table h =
    is_stopped-seen others id _ (stop_scenario-latest others id t code resp table h)

running_unseen : is_stopped_scenario_status "running" ≡ false
unfolding is_stopped_scenario_status trim_space equal_fold_ascii is_space fold_ascii trim_left
running_unseen = refl

-- A stop that comes after a worker's test and before its insert of the status running is lost: once
-- that insert has succeeded, the latest row is no stop, and the worker does not see it any more.
pub stop_scenario_lost :
    (others : Others) (scenario : ScenarioResponse) (t : Table) (trace : List Effects.Event)
    → IsTable t
    → (append_scenario_status
        (worker_env others)
        scenario
        "running"
        (record { world = after_stop others scenario.id t; trace = trace })).0
      ≡ ok tt
    → (is_stopped
        (worker_env others)
        scenario.id
        (append_scenario_status
          (worker_env others)
          scenario
          "running"
          (record { world = after_stop others scenario.id t; trace = trace })).1).0
      ≡ ok false
stop_scenario_lost others scenario t trace table h =
    appended_row others scenario "running" _ (stop_scenario-IsTable others scenario.id t table)
      running_unseen h
