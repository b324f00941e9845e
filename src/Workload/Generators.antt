-- ===== src/Workload/Generators.antt =====
-- What the generators of internal/workload share: what they reach outside, the calls that are
-- counted, and the result at the end of a run. Spans and log lines are left out.
pub mod Cpu
pub mod Memory
pub mod DbWrite
pub mod DbRead
pub mod Keeping
pub mod Ending
pub mod Counting
pub mod Burning
mod Tests
use clusterprobe.Prelude.{ℕ, String, Bool, true, false, Option, none, some, List, ◌∷◌}
use clusterprobe.Go.Int64.{ℤ, pos, leb_ℤ, ◌*ℤ◌, ◌-ℤ◌}
use clusterprobe.Go.Errors.{GoError, Result, wrapped, error_text}
use clusterprobe.Workload.Params.{WorkResult}
use clusterprobe.Workload.Clock.{Clock}

-- What `Execute` returns.
abbrev pub Outcome : Type 0
Outcome = WorkResult × Option GoError

-- The row that a `db_write` inserts, before it is marshalled.
pub record Payload : Type 0 where
  pub id : String
  pub scenario_id : String
  pub workload : String
  pub created_at : ℕ

-- The functions outside the package: `SQLStore`, `uuid`, `json.Marshal`, `rand.Int`, the latency
-- histogram and the `select` between the context and a timer, which gives the context's error if the
-- context is done first.
pub record Env (W : Type 0) : Type 0 where
  pub clock : Clock W
  pub new_id : W → String × W
  pub marshal : Payload → Result String
  pub exec : (query scenario_id payload : String) → W → Option GoError × W
  pub query_row : String → ℤ → W → Option GoError × W
  pub is_no_rows_error : GoError → Bool
  pub random_below : ℤ → W → Result ℤ × W
  pub new_histogram : W → Option GoError × W
  pub record_latency : ℤ → W → W
  pub wait : ℤ → W → Option GoError × W

-- The world with the answers of the store, newest first.
pub record Calls (W : Type 0) : Type 0 where
  pub world : W
  pub answers : List (Option GoError)

abbrev pub keeping : {A W : Type 0} → (W → A × W) → Calls W → A × Calls W
keeping f s = let (a, w) = f s.world in (a, record s { world = w })

abbrev pub asking : {W : Type 0} → (W → Option GoError × W) → Calls W → Option GoError × Calls W
asking f s = let (e, w) = f s.world in (e, record { world = w; answers = e ∷ s.answers })

abbrev pub calls_clock : {W : Type 0} → Clock W → Clock (Calls W)
calls_clock clock = record { now = keeping clock.now; context_error = keeping clock.context_error }

-- `time.Duration(params.DurationMs) * time.Millisecond`
abbrev pub milliseconds : ℤ → ℤ
milliseconds ms = ms *ℤ pos 1000000

-- A field that is not above 0 is replaced by its default.
abbrev pub or_default : ℤ → ℤ → ℤ
or_default d n = elim (leb_ℤ n (pos 0)) [ true ↦ d | false ↦ n ]

-- The result at the end of a run, by the failure that ended it.
unfoldable pub conclude :
    {W : Type 0} → Clock W → ℕ → ℤ → Option (String × GoError) → W → Outcome × W
conclude clock start ops none w =
    let (t, w1) = clock.now w in
    ((record { ops = ops; duration = pos t -ℤ pos start; error = "" }, none), w1)
conclude clock start ops (some (label, e)) w =
    let (t, w1) = clock.now w in
    (
      (
        record { ops = ops; duration = pos t -ℤ pos start; error = error_text e },
        some (wrapped label e),
      ),
      w1,
    )
