-- ===== src/Ui/Pages.antt =====
-- How the handlers of cmd/ui/handlers answer (server.go), and the API that they call (types.go). The
-- fixed texts of the pages, spans and log lines are left out.
use clusterprobe.Prelude.{ℕ, String, Bool, Option, List, [], ◌∷◌}
use clusterprobe.Go.Errors.{GoError, Result, ok, err}
use clusterprobe.Workload.Types.{
  ScenarioRequest, ScenarioResponse, ChaosExperimentRequest, ChaosExperimentResponse,
}
use clusterprobe.Api.Http.{Reply, no_reply, write_header}
use clusterprobe.Ui.Views.{ScenarioView, ExperimentView}

-- The pages and parts of pages with what they show; the first `Bool` is the banner for a success.
pub data Page : Type 0 where
  scenario_list : List ScenarioView → Bool → Page
  scenario_form : Page
  scenario_detail scenario_events : ScenarioView → List ScenarioView → Page
  scenario_row : ScenarioView → Page
  chaos_list : List ExperimentView → Page
  chaos_form : Option ExperimentView → Page
  chaos_detail experiment_status : ExperimentView → Page
  unavailable not_found : String → Page

pub data Content : Type 0 where
  page : Page → Content
  text : String → Content
  location : String → Content

-- What comes of a template: it may fail before anything is written, or after its status.
pub data Rendering : Type 0 where
  rendered not_started cut_off : Rendering

-- `APIClient` and the templates.
pub record Env (W : Type 0) : Type 0 where
  pub list_scenarios : W → Result (List ScenarioResponse) × W
  pub get_scenario : String → W → Result ScenarioResponse × W
  pub list_scenario_events : String → W → Result (List ScenarioResponse) × W
  pub create_scenario : ScenarioRequest → W → Result ScenarioResponse × W
  pub stop_scenario : String → W → Result ScenarioResponse × W
  pub list_experiments : W → Result (List ChaosExperimentResponse) × W
  pub create_experiment : ChaosExperimentRequest → W → Result ChaosExperimentResponse × W
  pub get_experiment : String → W → Result ChaosExperimentResponse × W
  pub delete_experiment : String → W → Option GoError × W
  pub render : Page → Rendering

-- The calls that change something, newest first.
pub data Call : Type 0 where
  did_create_scenario : ScenarioRequest → Result ScenarioResponse → Call
  did_stop_scenario : String → Result ScenarioResponse → Call
  did_create_experiment : ChaosExperimentRequest → Result ChaosExperimentResponse → Call
  did_delete_experiment : String → Option GoError → Call

pub record State (W : Type 0) : Type 0 where
  pub world : W
  pub calls : List Call

abbrev pub Answer : Type 0
Answer = Reply Content

-- `http.Error`
unfoldable pub http_error : ℕ → String → Answer → Answer
unfolding write_header
http_error code message r =
    let r' = write_header code r in record r' { bodies = text message ∷ r'.bodies }

-- `http.Redirect`
unfoldable pub redirect : ℕ → String → Answer
unfolding write_header
redirect code url = record (write_header code no_reply) { bodies = location url ∷ [] }

-- `renderTemplateStatus`, or a part of a page, and the error that the handler answers if it fails.
unfoldable pub render_status : {W : Type 0} → Env W → ℕ → Page → Answer
unfolding write_header http_error
render_status env code p = elim (env.render p) [
  | rendered ↦ record (write_header code no_reply) { bodies = page p ∷ [] }
  | not_started ↦ http_error 500 "template error" no_reply
  | cut_off ↦ http_error 500 "template error" (write_header code no_reply)
]

module _ {W : Type 0} where
  -- A call that only reads.
  abbrev pub asked : {A : Type 0} → (W → A × W) → State W → A × State W
  asked f s = let (a, w) = f s.world in (a, record s { world = w })

  abbrev pub called : {A : Type 0} → (A → Call) → (W → A × W) → State W → A × State W
  called note f s = let (a, w) = f s.world in (a, record { world = w; calls = note a ∷ s.calls })

  abbrev answered :
      {A : Type 0}
      → Result A × State W
      → Answer
      → (A → State W → Answer × State W)
      → Answer × State W
  answered (err e, s) failure k = (failure, s)
  answered (ok a, s) failure k = k a s

  -- `if err != nil { http.Error(w, text, code); return }` and what follows.
  abbrev pub or_error :
      {A : Type 0}
      → Result A × State W
      → ℕ
      → String
      → (A → State W → Answer × State W)
      → Answer × State W
  or_error r code message k = answered r (http_error code message no_reply) k
