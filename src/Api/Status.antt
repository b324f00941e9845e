-- ===== src/Api/Status.antt =====
-- cmd/api/handlers/status.go.
use clusterprobe.Prelude.{ℕ, String, none, some, str_eq, if◌then◌else◌}
use clusterprobe.Go.Int64.{ℤ, pos}
use clusterprobe.Go.Errors.{Result, ok, err, context}
use clusterprobe.Go.Strings.{codes}
use clusterprobe.Go.Numbers.{atoi}
use clusterprobe.Go.Json.{Payload, decode}
use clusterprobe.Workload.Types.{Time}
use clusterprobe.Api.Http.{Handler, Outcome, goes, fails, ◌>>=◌, reply, or_fail}

-- The two queries of the store, `Get` of Redis and the clock; `J` is a decoded JSON value.
pub record Env (W J : Type 0) : Type 0 where
  pub scenario_counts : W → Result (ℤ × ℤ) × W
  pub latest_snapshot : W → Result (Payload J × Time) × W
  pub redis_get : String → W → Result String × W
  pub now : W → Time × W

pub record StatusReport : Type 0 where
  pub status : String
  pub time : Time
  pub scenarios_running : ℤ
  pub scenarios_completed : ℤ
  pub chaos_running : ℤ

pub record SnapshotReport (J : Type 0) : Type 0 where
  pub snapshot : J
  pub created_at : Time

-- `statusKeys`, where an absent key gives the empty text.
unfoldable pub status_key : String → String
status_key key =
    if str_eq key "scenarios_running"
    then "scenarios.running"
    else if str_eq key "scenarios_completed"
    then "scenarios.completed"
    else if str_eq key "chaos_running"
    then "chaos.running"
    else ""

-- `strconv.ParseInt(value, 10, 64)`, and 0 for an error.
unfoldable pub counter_value : Result String → ℤ
counter_value (err e) = pos 0
counter_value (ok value) = elim (atoi (codes value)) [ none ↦ pos 0 | some n ↦ n ]

module _ {W J : Type 0} (env : Env W J) where
  unfoldable pub scenario_counts : W → Result (ℤ × ℤ) × W
  scenario_counts w = let (r, w1) = env.scenario_counts w in (context "scan scenario counts" r, w1)

  unfoldable pub redis_counter : String → W → ℤ × W
  redis_counter key w = let (r, w1) = env.redis_get (status_key key) w in (counter_value r, w1)

  -- The two counters of scenarios.
  counted : Result (ℤ × ℤ) × W → (ℤ × ℤ) × W
  counted (ok counts, w) = (counts, w)
  counted (err e, w) =
      let (running, w1) = redis_counter "scenarios_running" w in
      let (completed, w2) = redis_counter "scenarios_completed" w1 in ((running, completed), w2)

  -- `Status`
  unfoldable pub report_status : Handler W (ℕ × StatusReport)
  unfolding counted
  report_status w =
      let ((running, completed), w1) = counted (scenario_counts w) in
      let (chaos, w2) = redis_counter "chaos_running" w1 in
      let (t, w3) = env.now w2 in
      (
        goes (
          200,
          record {
            status = "ok";
            time = t;
            scenarios_running = running;
            scenarios_completed = completed;
            chaos_running = chaos;
          },
        ),
        w3,
      )

  -- `Healthz`, up to its only field.
  unfoldable pub healthz : Handler W (ℕ × String)
  healthz = reply (200, "ok")

  abbrev settled : {A : Type 0} → Outcome A → Handler W A
  settled o w = (o, w)

  abbrev decoded : Result J → Outcome J
  decoded (ok j) = goes j
  decoded (err e) = fails 500 "decode snapshot"

  -- `MetricsSnapshot`
  unfoldable pub metrics_snapshot : Handler W (ℕ × SnapshotReport J)
  metrics_snapshot = do
    (payload, created) ← or_fail 404 "no metrics snapshot" env.latest_snapshot
    snapshot ← settled (decoded (decode payload))
    reply (200, record { snapshot = snapshot; created_at = created })
