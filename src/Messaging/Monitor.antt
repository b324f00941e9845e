-- ===== src/Messaging/Monitor.antt =====
-- `monitorReconnect` of internal/messaging/rabbitmq.go beside the other users of a client, each in a
-- goroutine of its own: the calls of the library and the sections under the lock, one at a time. The
-- producer and the consumer have the same code.
pub mod Accounts
pub mod Sequential
pub mod Reopening
mod Tests
use clusterprobe.Prelude.{
  ℕ, String, if◌then◌else◌, zero, suc, Option, none, some, List, [], ◌∷◌, ◌++◌, ◌≡◌, true, false,
  get_elem?, modify,
}
use clusterprobe.Go.Int64.{ℤ, pos}
use clusterprobe.Go.Errors.{GoError, Result, ok, err, msg}
use clusterprobe.Retry.{next_backoff}
use clusterprobe.Messaging.Broker.{
  Handle, Env, Outside, Event, did_dial, did_open, did_close_conn, did_close_channel, did_wait,
}
use clusterprobe.Workload.Types.{is_empty}
use clusterprobe.Messaging.Connection.{Link, connect}

-- Who runs `reconnect`: the monitor, or a caller such as `Consume`.
pub data Role : Type 0 where
  monitor caller : Role

-- Where a goroutine stands, with the local variables that are live there: the attempts that are left
-- and the delay of `reconnect`, a new connection, its channel.
pub data Pc : Type 0 where
  loop_head : Pc  -- the head of the loop in `monitorReconnect`
  watching : (conn : Handle) → Pc  -- its `select`
  stopped : Pc  -- `monitorReconnect` has returned
  idle : Pc  -- a caller between two calls
  dialing : Role → (attempts : ℕ) → (backoff : ℤ) → Pc  -- the head of the loop in `reconnect`
  dialed : Role → (attempts : ℕ) → (backoff : ℤ) → (conn : Handle) → Pc
  opened : Role → (attempts : ℕ) → (backoff : ℤ) → (conn channel : Handle) → Pc
  waiting : Role → (attempts : ℕ) → (backoff : ℤ) → Pc  -- its `select`

-- Where `reconnect` returns to.
abbrev pub returned : Role → Pc
returned monitor = loop_head
returned caller = idle

abbrev pub no_link : Link
no_link = record { conn = none; channel = none }

-- The closing of the old handles, newest first, with the errors that it returns.
abbrev pub closing_conn : Option Handle → Option GoError → List Event
closing_conn none e = []
closing_conn (some h) e = did_close_conn h e ∷ []

abbrev pub closing_channel : Option Handle → Option GoError → List Event
closing_channel none e = []
closing_channel (some h) e = did_close_channel h e ∷ []

abbrev pub closing : Link → (channel conn : Option GoError) → List Event
closing l d e = closing_conn l.conn e ++ closing_channel l.channel d

-- One step of one goroutine: the link after it, and the calls that it makes.
pub data Move (l : Link) : Pc → Link → List Event → Pc → Type 0 where
  look : {h : Handle} → l.conn ≡ some h → Move l loop_head l [] (watching h)
  leave : l.conn ≡ none → Move l loop_head l [] stopped
  context_done : {h : Handle} → Move l (watching h) l [] stopped
  notified : {h : Handle} → Move l (watching h) l [] (dialing monitor 10 (pos 500000000))
  call : Move l idle l [] (dialing caller 10 (pos 500000000))
  close_link : (d e : Option GoError) → Move l idle no_link (closing l d e) idle
  give_up : {r : Role} {b : ℤ} → Move l (dialing r zero b) l [] (returned r)
  dial_fails :
      {r : Role} {n : ℕ} {b : ℤ} (e : GoError)
      → Move l (dialing r (suc n) b) l (did_dial (err e) ∷ []) (waiting r n b)
  dial_works :
      {r : Role} {n : ℕ} {b : ℤ} (h : Handle)
      → Move l (dialing r (suc n) b) l (did_dial (ok h) ∷ []) (dialed r n b h)
  channel_fails :
      {r : Role} {n : ℕ} {b : ℤ} {h : Handle} (e : GoError) (d : Option GoError)
      → Move l (dialed r n b h) l (did_close_conn h d ∷ did_open h (err e) ∷ []) (waiting r n b)
  channel_works :
      {r : Role} {n : ℕ} {b : ℤ} {h : Handle} (c : Handle)
      → Move l (dialed r n b h) l (did_open h (ok c) ∷ []) (opened r n b h c)
  install :
      {r : Role} {n : ℕ} {b : ℤ} {h c : Handle} (d e : Option GoError)
      → Move l
          (opened r n b h c)
          (record { conn = some h; channel = some c })
          (closing l d e)
          (returned r)
  wait_over :
      {r : Role} {n : ℕ} {b : ℤ}
      → Move l (waiting r n b) l (did_wait b false ∷ []) (dialing r n (next_backoff b))
  wait_done :
      {r : Role} {n : ℕ} {b : ℤ} → Move l (waiting r n b) l (did_wait b true ∷ []) (returned r)

-- A client with its goroutines, and the calls so far, newest first.
pub record Client : Type 0 where
  pub link : Link
  pub pcs : List Pc
  pub trace : List Event

pub data Step (s : Client) : Client → Type 0 where
  pick :
      (i : ℕ) {p : Pc} {l : Link} {es : List Event} {q : Pc}
      → get_elem? s.pcs i ≡ some p
      → Move s.link p l es q
      → Step s (record { link = l; pcs = modify s.pcs i (λ _. q); trace = es ++ s.trace })

pub data Steps (s : Client) : Client → Type 0 where
  here : Steps s s
  later : {t u : Client} → Steps s t → Step t u → Steps s u

abbrev idle_callers : ℕ → List Pc
idle_callers zero = []
idle_callers (suc n) = idle ∷ idle_callers n

abbrev client_of : {W : Type 0} → ℕ → (Option GoError × Link) × Outside W → Result Client
client_of callers ((some e, l), s) = err e
client_of callers ((none, l), s) =
    ok (record { link = l; pcs = loop_head ∷ idle_callers callers; trace = s.trace })

-- `NewProducer` and `NewConsumer`: a client with its monitor, and the callers that it will have.
unfoldable pub new_client :
    {W : Type 0} → Env W → (url : String) → (callers : ℕ) → W → Result Client
new_client env url callers w =
    if is_empty url
    then err (msg "rabbitmq url is required")
    else client_of callers (connect env no_link (record { world = w; trace = [] }))
