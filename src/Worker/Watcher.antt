-- ===== src/Worker/Watcher.antt =====
-- `watchScenarioStop` of cmd/worker/reporting.go: the goroutine that cancels a run when its scenario
-- is stopped. What it waits for comes as a list: ticks, each with the answer to the status query
-- that it leads to, and the end of the context.
use clusterprobe.Prelude.{Bool, true, false, ◌||◌, List, [], ◌∷◌, if◌then◌else◌, ◌≡◌, arith, refl}
use clusterprobe.Go.Int64.{ℤ, pos, leb_ℤ}
use clusterprobe.Go.Errors.{Result, ok, err}
use clusterprobe.Go.Json.{Payload, document, malformed}
use clusterprobe.Workload.Types.{ScenarioResponse}
use clusterprobe.Worker.Reporting.{is_stopped_scenario_status}

pub data Signal : Type 0 where
  ctx_done : Signal
  tick : Result (Payload ScenarioResponse) → Signal

-- Where the goroutine stands: waiting, or returned, with or without a call of `cancel`.
pub data Watch : Type 0 where
  waiting ended canceled : Watch

-- The interval of the ticker.
unfoldable pub watch_interval : ℤ → ℤ
watch_interval interval = if leb_ℤ interval (pos 0) then pos 500000000 else interval

-- `latestScenarioStatus`, and the test of its result; an error goes on to the next tick.
unfoldable pub sees_stop : Result (Payload ScenarioResponse) → Bool
sees_stop (err e) = false
sees_stop (ok (malformed text)) = false
sees_stop (ok (document s)) = is_stopped_scenario_status s.status

unfoldable pub watch : List Signal → Watch
watch [] = waiting
watch (ctx_done ∷ signals) = ended
watch (tick answer ∷ signals) =
    let rest = watch signals in if sees_stop answer then canceled else rest

-- The ticks that come before the context ends.
abbrev pub live : List Signal → List (Result (Payload ScenarioResponse))
live [] = []
live (ctx_done ∷ signals) = []
live (tick answer ∷ signals) = answer ∷ live signals

abbrev pub any_stop : List (Result (Payload ScenarioResponse)) → Bool
any_stop [] = false
any_stop (answer ∷ answers) = sees_stop answer || any_stop answers

abbrev pub is_canceled_watch : Watch → Bool
is_canceled_watch canceled = true
is_canceled_watch _ = false

-- The watcher cancels the run exactly if one of the answers that it gets before its context ends is
-- a stop: failed queries and undecodable rows neither cancel the run nor end the watch.
pub watch_iff :
    (signals : List Signal) → is_canceled_watch (watch signals) ≡ any_stop (live signals)
unfolding watch
watch_iff [] = refl
watch_iff (ctx_done ∷ signals) = refl
watch_iff (tick answer ∷ signals) = ground (arith, watch_iff signals)
