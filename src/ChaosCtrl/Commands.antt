-- ===== src/ChaosCtrl/Commands.antt =====
-- `run` and the commands of cmd/chaos-ctrl/main.go. The time limit on the client's calls and the
-- usage texts are left out.
use clusterprobe.Prelude.{
  ◌||◌, String, ◌<>◌, Bool, Option, none, some, List, [], ◌∷◌, map, str_eq, if◌then◌else◌,
}
use clusterprobe.Go.Errors.{GoError, Result, ok, err, msg, of_error, fail_if}
use clusterprobe.Go.Action.{Action, ◌>>=◌, ◌>>◌, lift, pass, within}
use clusterprobe.Go.Flags.{parse_flags}
use clusterprobe.Go.Json.{Payload, decode}
use clusterprobe.Go.Text.{join}
use clusterprobe.Workload.Types.{is_empty}
use clusterprobe.Chaos.Types.{ExperimentSpec, ExperimentStatus}
use clusterprobe.ChaosCtrl.Arguments.{CommandConfig, parse_args}

-- What the tool reads of a manifest: a text is empty where it is absent or no text.
pub record Manifest (S : Type 0) : Type 0 where
  pub kind : String
  pub name : String
  pub namespace : String
  pub spec : Option S

-- `chaosAPI`
pub record ChaosApi (W S : Type 0) : Type 0 where
  pub apply : ExperimentSpec S → Action W String
  pub status : String → Action W ExperimentStatus
  pub delete : String → Action W (Unit {0})
  pub list : Action W (List ExperimentStatus)

-- The payloads of `writeOutput`.
pub data Output : Type 0 where
  one : ExperimentStatus → Output
  many : List ExperimentStatus → Output
  pairs : List (String × String) → Output

pub record Env (W S : Type 0) : Type 0 where
  -- the file with its YAML decoded
  pub read_file : String → Action W (Payload (Manifest S))
  pub new_client : CommandConfig → W → Option GoError × W
  pub client : CommandConfig → ChaosApi W S
  pub write : String → W → Option GoError × W
  -- `json.MarshalIndent`
  pub encode : Output → Result String
  -- the order in which Go goes through a map
  pub arrange : List (String × String) → List (String × String)
  -- the verb `%q`
  pub quote : String → String
  pub build : List (String × String)

abbrev status_line : ExperimentStatus → String
status_line s =
    s.name <> ("\t" <> (s.namespace <> ("\t" <> (s.kind <> ("\t" <> (s.phase <> "\n"))))))

module _ {W S : Type 0} (env : Env W S) where
  write_text : String → Action W (Unit {0})
  write_text text w = let (e, w') = env.write text w in (of_error e, w')

  write_statuses : List ExperimentStatus → Action W (Unit {0})
  unfolding write_text
  write_statuses [] = pass tt
  write_statuses (s ∷ rest) = do
    within "write status output" (write_text (status_line s))
    write_statuses rest

  write_as_text : Output → Action W (Unit {0})
  unfolding write_statuses write_text
  write_as_text (one s) = write_statuses (s ∷ [])
  write_as_text (many l) = write_statuses l
  write_as_text (pairs l) =
      within "write map output"
        (write_text (join " " (map (λ p. p.0 <> ("=" <> p.1)) (env.arrange l)) <> "\n"))

  write_as_json : Output → Action W (Unit {0})
  unfolding write_text
  write_as_json output = do
    encoded ← within "encode json" (lift (env.encode output))
    within "write json output" (write_text (encoded <> "\n"))

  unfoldable pub write_output : String → Output → Action W (Unit {0})
  unfolding write_as_json write_as_text
  write_output format output =
      if str_eq format "json" then write_as_json output else write_as_text output

  given : {A : Type 0} → String → Option A → Result A
  given text none = err (msg text)
  given text (some a) = ok a

  unfoldable pub experiment_spec_from_file : String → Action W (ExperimentSpec S)
  unfolding given
  experiment_spec_from_file file = do
    contents ← within ("read " <> file) (env.read_file file)
    manifest ← within ("decode " <> file) (lift (decode contents))
    lift (fail_if (is_empty manifest.name) (msg "manifest metadata.name is required"))
    lift (fail_if (is_empty manifest.kind) (msg "manifest kind is required"))
    spec ← lift (given "manifest spec is required" manifest.spec)
    pass (record {
      name = manifest.name;
      namespace = manifest.namespace;
      kind = manifest.kind;
      spec = some spec;
    })

  is_file_flag : String → Bool
  is_file_flag name = str_eq name "f" || str_eq name "file"

  -- The last of the flags that were set.
  last_value : String → List (String × String) → String
  last_value value [] = value
  last_value value ((name, new) ∷ rest) = last_value new rest

  unfoldable pub run_apply : CommandConfig → Action W (Unit {0})
  unfolding is_file_flag last_value
  run_apply cfg = do
    (set, rest) ← within "parse apply flags" (lift (parse_flags is_file_flag cfg.args))
    let file = last_value "" set
    lift (fail_if (is_empty file) (msg "apply requires -f/--file"))
    spec ← experiment_spec_from_file file
    let chosen = if is_empty spec.namespace then cfg.namespace else spec.namespace
    id ← within "apply experiment" ((env.client cfg).apply (record spec { namespace = chosen }))
    write_output cfg.output (pairs (("status", "applied") ∷ ("id", id) ∷ []))

  only_argument : String → List String → Result String
  only_argument text (name ∷ []) = ok name
  only_argument text _ = err (msg text)

  unfoldable pub run_status : CommandConfig → Action W (Unit {0})
  unfolding only_argument
  run_status cfg = do
    name ← lift (only_argument "status requires exactly one experiment name" cfg.args)
    status ← within "get status" ((env.client cfg).status name)
    write_output cfg.output (one status)

  unfoldable pub run_delete : CommandConfig → Action W (Unit {0})
  unfolding only_argument
  run_delete cfg = do
    name ← lift (only_argument "delete requires exactly one experiment name" cfg.args)
    within "delete experiment" ((env.client cfg).delete name)
    write_output cfg.output (pairs (("status", "deleted") ∷ ("id", name) ∷ []))

  no_arguments : List String → Result (Unit {0})
  no_arguments [] = ok tt
  no_arguments (arg ∷ args) = err (msg "list does not accept arguments")

  unfoldable pub run_list : CommandConfig → Action W (Unit {0})
  unfolding no_arguments
  run_list cfg = do
    lift (no_arguments cfg.args)
    statuses ← within "list experiments" ((env.client cfg).list)
    write_output cfg.output (many statuses)

  unfoldable pub run_client : String → CommandConfig → Action W (Unit {0})
  run_client command cfg =
      if str_eq command "apply"
      then run_apply cfg
      else if str_eq command "status"
      then run_status cfg
      else if str_eq command "delete"
      then run_delete cfg
      else if str_eq command "list"
      then run_list cfg
      else lift (err (msg ("unknown command " <> env.quote command)))

  make_client : CommandConfig → Action W (Unit {0})
  make_client cfg w = let (e, w') = env.new_client cfg w in (of_error e, w')

  unfoldable pub run : List String → Action W (Unit {0})
  unfolding make_client
  run args = do
    (cfg, command) ← lift (parse_args env.quote args)
    if str_eq command "version"
        then write_output cfg.output (pairs env.build)
        else do within "create chaos client" (make_client cfg); run_client command cfg
