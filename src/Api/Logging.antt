-- ===== src/Api/Logging.antt =====
-- cmd/api/middleware/logging.go, which cmd/ui has as well, and the log stream of
-- cmd/api/handlers/logs.go: what a handler does with its `http.ResponseWriter`, as a list of calls.
use clusterprobe.Prelude.{
  ℕ, String, Bool, true, false, ◌||◌, Option, none, some, List, [], ◌∷◌, ◌++◌, ◌==◌, ◌≡◌, refl,
  arith, if◌then◌else◌,
}
use clusterprobe.Workload.Types.{Time}

pub data Op (B : Type 0) : Type 0 where
  write_header : ℕ → Op B
  write : B → Op B
  flush : Op B

-- What the client has got, and what is still in the buffer of the connection, newest first.
pub record Sent (B : Type 0) : Type 0 where
  pub status : Option ℕ
  pub bodies : List B
  pub unflushed : List B

abbrev pub nothing : {B : Type 0} → Sent B
nothing = record { status = none; bodies = []; unflushed = [] }

abbrev or_status : Option ℕ → ℕ → Option ℕ
or_status none new = some new
or_status (some old) new = some old

-- The writer of net/http: the first status counts, and it is 200 where a body comes first.
abbrev pub plain_op : {B : Type 0} → Op B → Sent B → Sent B
plain_op (write_header c) s = record s { status = or_status s.status c }
plain_op (write b) s = record s { status = or_status s.status 200; unflushed = b ∷ s.unflushed }
plain_op flush s = record {
  status = or_status s.status 200;
  bodies = s.unflushed ++ s.bodies;
  unflushed = [];
}

-- `responseWriter`
pub record ResponseWriter (B : Type 0) : Type 0 where
  pub inner : Sent B
  pub status : ℕ

-- Its methods. `can_flush` says whether the inner writer is a `http.Flusher`.
unfoldable pub wrapped_op :
    {B : Type 0} → (can_flush : Bool) → Op B → ResponseWriter B → ResponseWriter B
wrapped_op can_flush (write_header c) w = record {
  inner = plain_op (write_header c) w.inner;
  status = c;
}
wrapped_op can_flush (write b) w = record w { inner = plain_op (write b) w.inner }
wrapped_op can_flush flush w = record w {
  inner = if can_flush then plain_op flush w.inner else w.inner;
}

abbrev pub plain_ops : {B : Type 0} → List (Op B) → Sent B → Sent B
plain_ops [] s = s
plain_ops (o ∷ os) s = plain_ops os (plain_op o s)

abbrev pub wrapped_ops :
    {B : Type 0} → (can_flush : Bool) → List (Op B) → ResponseWriter B → ResponseWriter B
wrapped_ops can_flush [] w = w
wrapped_ops can_flush (o ∷ os) w = wrapped_ops can_flush os (wrapped_op can_flush o w)

-- `Logging` around a handler with these calls, up to the status that it logs.
unfoldable pub logging : {B : Type 0} → (can_flush : Bool) → List (Op B) → ResponseWriter B
logging can_flush ops = wrapped_ops can_flush ops (record { inner = nothing; status = 200 })

-- `sanitizeLogValue`
unfoldable pub sanitize_log_value : List ℕ → List ℕ
sanitize_log_value [] = []
sanitize_log_value (c ∷ cs) = (if c == 10 || c == 13 then 32 else c) ∷ sanitize_log_value cs

-- What the `select` of `Stream` receives.
pub data Signal : Type 0 where
  context_done : Signal
  tick : Time → Signal

-- `Stream`, with the headers left out; an event is its time and message.
abbrev log_event : Time → String → Op (Time × String)
log_event t message = write (t, message)

unfoldable pub stream_ticks : List Signal → List (Op (Time × String))
stream_ticks [] = []
stream_ticks (context_done ∷ signals) = []
stream_ticks (tick t ∷ signals) =
    log_event t "clusterprobe-api log stream heartbeat" ∷ flush ∷ stream_ticks signals

unfoldable pub stream : (now : Time) → List Signal → List (Op (Time × String))
stream now signals =
    log_event now "clusterprobe-api log stream connected" ∷ flush ∷ stream_ticks signals

-- The last status that is set, or `before`.
abbrev pub last_status : {B : Type 0} → ℕ → List (Op B) → ℕ
last_status before [] = before
last_status before (write_header c ∷ os) = last_status c os
last_status before (_ ∷ os) = last_status before os

module _ {B : Type 0} where
  wrapped_ops-plain_ops :
      (ops : List (Op B)) (w : ResponseWriter B)
      → wrapped_ops true ops w
        ≡ record { inner = plain_ops ops w.inner; status = last_status w.status ops }
  unfolding wrapped_op
  wrapped_ops-plain_ops [] w = refl
  wrapped_ops-plain_ops (write_header c ∷ os) w = wrapped_ops-plain_ops os _
  wrapped_ops-plain_ops (write b ∷ os) w = wrapped_ops-plain_ops os _
  wrapped_ops-plain_ops (flush ∷ os) w = wrapped_ops-plain_ops os _

  -- Behind the logging middleware a handler answers as without it, where the connection can flush;
  -- but the status that is logged is the last one that the handler sets, not the first, which is
  -- the one that the client gets.
  pub logging-plain_ops :
      (ops : List (Op B))
      → logging true ops ≡ record { inner = plain_ops ops nothing; status = last_status 200 ops }
  unfolding logging
  logging-plain_ops ops = wrapped_ops-plain_ops ops _

stream_ticks_flushed :
    (signals : List Signal) (w : ResponseWriter (Time × String))
    → w.inner.unflushed ≡ []
    → (wrapped_ops true (stream_ticks signals) w).inner.unflushed ≡ []
unfolding stream_ticks wrapped_op
stream_ticks_flushed [] w h = h
stream_ticks_flushed (context_done ∷ signals) w h = h
stream_ticks_flushed (tick t ∷ signals) w h = stream_ticks_flushed signals _ refl

-- Behind the middleware, too, no event of the log stream waits in the buffer.
pub stream_flushed :
    (now : Time) (signals : List Signal) → (logging true (stream now signals)).inner.unflushed ≡ []
unfolding stream logging wrapped_op
stream_flushed now signals = stream_ticks_flushed signals _ refl

-- A sanitized text has no line break.
abbrev pub has_break : List ℕ → Bool
has_break [] = false
has_break (c ∷ cs) = (c == 10 || c == 13) || has_break cs

pub sanitize_log_value_lem : (cs : List ℕ) → has_break (sanitize_log_value cs) ≡ false
unfolding sanitize_log_value
sanitize_log_value_lem [] = refl
sanitize_log_value_lem (c ∷ cs) = ground (arith, sanitize_log_value_lem cs)
