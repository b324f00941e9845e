-- ===== src/Chaos/Phases.antt =====
-- `statusFromObjectAt` and `inferPhaseFromObject` of internal/chaos/client.go.
use clusterprobe.Prelude.{
  ℕ, ◌+◌, ◌≤◌, ◌<◌, String, Bool, not, Option, none, some, ltb, ◌==◌, str_eq, str_eq_iff,
  if◌then◌else◌, ◌≡◌, ◌≢◌, arith,
}
use clusterprobe.Go.Int64.{ℤ, pos, leb_ℤ, pos_part}
use clusterprobe.Workload.Types.{Time, is_empty}
use clusterprobe.Chaos.Types.{ExperimentStatus, Object}

-- `time.Parse(time.RFC3339, s)` and `time.ParseDuration`, which the source takes from Go's `time`:
-- a value, or `none` on an error.
pub record Parsers : Type 0 where
  pub parse_time : String → Option Time
  pub parse_duration : String → Option ℤ

abbrev text_or : Option String → String → String
text_or none d = d
text_or (some s) d = s

abbrev nonempty_or : Option String → String → String
nonempty_or none d = d
nonempty_or (some s) d = if is_empty s then d else s

module _ (parsers : Parsers) where
  abbrev time_of : Option String → Option Time
  time_of none = none
  time_of (some s) = parsers.parse_time s

  -- `!now.Before(created.Add(duration))` for a positive duration.
  abbrev has_ended : Time → Time → ℤ → Bool
  has_ended now created duration = not (ltb now (created + pos_part duration))

  abbrev phase_after : Time → Time → Option ℤ → String
  phase_after now created none = "running"
  phase_after now created (some duration) =
      if leb_ℤ duration (pos 0)
      then "completed"
      else if has_ended now created duration
      then "completed"
      else "running"

  abbrev phase_by_duration : Time → Time → Option String → String
  phase_by_duration now created none = "running"
  phase_by_duration now created (some text) =
      if is_empty text then "running" else phase_after now created (parsers.parse_duration text)

  unfoldable pub infer_phase : Object → Time → String
  infer_phase obj now =
      if not (obj.deletion == 0)
      then "deleting"
      else if obj.creation == 0
      then "unknown"
      else phase_by_duration now obj.creation obj.spec_duration

  unfoldable pub status_from_object_at : Object → Time → ExperimentStatus
  status_from_object_at obj now =
      let phase = nonempty_or obj.status_phase "unknown" in
      record {
        id = obj.name;
        name = obj.name;
        namespace = obj.namespace;
        kind = obj.kind;
        phase = if str_eq phase "unknown" then infer_phase obj now else phase;
        message = text_or obj.status_message "";
        start_time = time_of obj.status_start;
        end_time = time_of obj.status_end;
      }

  -- The order of the life cycle that is inferred: running, then completed.
  abbrev pub is_completed : String → Bool
  is_completed phase = str_eq phase "completed"

  -- An experiment that is not being deleted and is inferred to be completed stays so: at every later
  -- time the inferred phase is completed as well.
  pub infer_phase_stable :
      (obj : Object) (now later : Time)
      → now ≤ later
      → infer_phase obj now ≡ "completed"
      → infer_phase obj later ≡ "completed"
  unfolding infer_phase
  infer_phase_stable obj now later h k = ground arith

  -- With a duration of `d` ns above 0, a created and not deleted experiment runs for exactly `d` ns.
  pub infer_phase_running :
      (obj : Object) (now : Time) {text : String} {d : ℕ}
      → obj.deletion ≡ 0
      → obj.creation ≢ 0
      → obj.spec_duration ≡ some text
      → text ≢ ""
      → parsers.parse_duration text ≡ some (pos d)
      → 0 < d
      → infer_phase obj now ≡ (if ltb now (obj.creation + d) then "running" else "completed")
  unfolding infer_phase
  infer_phase_running obj now {text} h k l m n o = ground (arith, str_eq_iff text "")

  -- A phase that the resource reports is passed on; only an absent, empty or unknown one is inferred.
  pub status_phase_reported :
      (obj : Object) (now : Time) {phase : String}
      → obj.status_phase ≡ some phase
      → phase ≢ ""
      → phase ≢ "unknown"
      → (status_from_object_at obj now).phase ≡ phase
  unfolding status_from_object_at
  status_phase_reported obj now {phase} h k l =
      ground (arith, str_eq_iff phase "", str_eq_iff phase "unknown")
