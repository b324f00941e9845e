-- ===== src/Api/Scenarios/Reading.antt =====
-- What the read handlers of cmd/api/handlers/scenarios.go return.
use clusterprobe.Prelude.{
  String, Option, none, some, List, [], ◌∷◌, map, ◌≡◌, ◌≢◌, ◌↔◌, refl, arith, str_eq_iff,
}
use clusterprobe.Go.Errors.{GoError, Result, ok}
use clusterprobe.Go.Json.{document}
use clusterprobe.Workload.Types.{ScenarioResponse}
use clusterprobe.Api.Http.{goes}
use clusterprobe.Api.Scenarios.{
  Env, State, Row, complete, read_row, read_rows, list_scenarios, get_scenario,
  list_scenario_events,
}

module _ (scan_text decode_text list_text : String) where
  read_rows_sound :
      (rows : List (Result Row)) (after : Option GoError) (l : List ScenarioResponse)
      → read_rows scan_text decode_text list_text rows after ≡ goes l
      → (after ≡ none) × (map (read_row scan_text decode_text) rows ≡ map goes l)
  unfolding read_rows
  read_rows_sound [] none [] h = (refl, refl)
  read_rows_sound [] none (s ∷ l) h = ground arith
  read_rows_sound [] (some e) l h = ground arith
  read_rows_sound (r ∷ rows) after [] h = ground arith
  read_rows_sound (r ∷ rows) after (s ∷ l) h = ground (arith, read_rows_sound rows after l)

  read_rows_complete :
      (rows : List (Result Row)) (after : Option GoError) (l : List ScenarioResponse)
      → after ≡ none
      → map (read_row scan_text decode_text) rows ≡ map goes l
      → read_rows scan_text decode_text list_text rows after ≡ goes l
  unfolding read_rows
  read_rows_complete [] after [] e h = ground arith
  read_rows_complete [] after (s ∷ l) e h = ground arith
  read_rows_complete (r ∷ rows) after [] e h = ground arith
  read_rows_complete (r ∷ rows) after (s ∷ l) e h = ground (arith, read_rows_complete rows after l)

  -- Reading the rows of a query gives a list exactly if no row fails to scan or to decode and the
  -- query ends without an error; then the list has the documents of the rows, in their order, with
  -- the ids and times that they lacked.
  pub read_rows_iff :
      (rows : List (Result Row)) (after : Option GoError) (l : List ScenarioResponse)
      → (read_rows scan_text decode_text list_text rows after ≡ goes l)
        ↔ ((after ≡ none) × (map (read_row scan_text decode_text) rows ≡ map goes l))
  read_rows_iff rows after l =
      (read_rows_sound rows after l, λ h. read_rows_complete rows after l h.0 h.1)

module _ {W : Type 0} (env : Env W) where
  -- The three read handlers store and publish nothing, whatever they answer.
  pub readers_keep_trace :
      (id : String) (s : State W)
      → ((list_scenarios env s).1.trace ≡ s.trace)
        × ((get_scenario env id s).1.trace ≡ s.trace)
        × ((list_scenario_events env id s).1.trace ≡ s.trace)
  unfolding list_scenarios get_scenario list_scenario_events
  readers_keep_trace id s = ground arith

  -- `GetScenario` answers the document of the latest row, with the id and the time that it lacks.
  get_scenario-latest :
      (id : String) (s : State W) {row : Row} {d : ScenarioResponse}
      → id ≢ ""
      → (env.latest id s.world).0 ≡ ok row
      → row.payload ≡ document d
      → (get_scenario env id s).0 ≡ goes (200, complete row d)
  unfolding get_scenario
  get_scenario-latest id s h k e = ground (arith, str_eq_iff id "")
