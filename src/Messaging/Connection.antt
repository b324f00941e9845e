-- ===== src/Messaging/Connection.antt =====
-- `connect`, `reconnect` and `Close` of internal/messaging/rabbitmq.go. The producer and the consumer
-- have the same code for the first two; the fields that it reads and writes are a record.
pub mod Handles
pub mod Backoff
pub mod Restoring
use clusterprobe.Prelude.{
  ℕ, zero, suc, String, Bool, true, false, Option, none, some, List, [], ◌∷◌, ◌||◌, if◌then◌else◌,
}
use clusterprobe.Go.Int64.{ℤ, pos, ltb_ℤ, ◌*ℤ◌}
use clusterprobe.Go.Errors.{GoError, Result, ok, err, wrapped, is_amqp_closed}
use mathlib.Core.Option
use clusterprobe.Retry.{next_backoff}
use clusterprobe.Messaging.Broker.{
  Handle, Env, Outside, dial, open_channel, close_conn, close_channel, wait,
}

-- The fields `conn` and `channel`, nil or not.
pub record Link : Type 0 where
  pub conn : Option Handle
  pub channel : Option Handle

module _ {W : Type 0} (env : Env W) where
  unfoldable pub close_old_channel : Option Handle → Outside W → Outside W
  unfolding close_channel
  close_old_channel none s = s
  close_old_channel (some ch) s = (close_channel env ch s).1

  unfoldable pub close_old_conn : Option Handle → Outside W → Outside W
  unfolding close_conn
  close_old_conn none s = s
  close_old_conn (some conn) s = (close_conn env conn s).1

  -- What `connect` does with the two results, the new connection's channel and the old link.
  unfoldable pub install :
      Handle → Link → Result Handle × Outside W → (Option GoError × Link) × Outside W
  unfolding close_old_channel close_old_conn close_conn
  install conn link (err e, s) =
      ((some (wrapped "rabbitmq channel" e), link), (close_conn env conn s).1)
  install conn link (ok ch, s) = (
    (none, record { conn = some conn; channel = some ch }),
    close_old_conn link.conn (close_old_channel link.channel s),
  )

  unfoldable pub dialed : Link → Result Handle × Outside W → (Option GoError × Link) × Outside W
  unfolding install open_channel
  dialed link (err e, s) = ((some e, link), s)
  dialed link (ok conn, s) = install conn link (open_channel env conn s)

  unfoldable pub connect : Link → Outside W → (Option GoError × Link) × Outside W
  unfolding dialed dial
  connect link s = dialed link (dial env s)

  unfoldable pub after_wait :
      Link → Bool × Outside W → (Link → Outside W → Link × Outside W) → Link × Outside W
  after_wait link (true, s) more = (link, s)
  after_wait link (false, s) more = more link s

  unfoldable pub after_attempt :
      ℤ
      → (Option GoError × Link) × Outside W
      → (Link → Outside W → Link × Outside W)
      → Link × Outside W
  unfolding after_wait wait
  after_attempt backoff ((none, link), s) more = (link, s)
  after_attempt backoff ((some e, link), s) more = after_wait link (wait env backoff s) more

  -- `reconnect`: the attempts that are left, and the next delay in nanoseconds.
  unfoldable pub reconnect_from : ℕ → ℤ → Link → Outside W → Link × Outside W
  unfolding after_attempt
  reconnect_from zero backoff link s = (link, s)
  reconnect_from (suc attempts) backoff link s =
      after_attempt backoff (connect link s) (reconnect_from attempts (next_backoff backoff))

  unfoldable pub reconnect : Link → Outside W → Link × Outside W
  reconnect = reconnect_from 10 (pos 500000000)

  -- The error of closing a handle, unless the handle was closed before.
  failure : Option GoError → Option GoError
  unfolding is_amqp_closed
  failure none = none
  failure (some e) = if is_amqp_closed e then none else some e

  first_failure : Option GoError → Option GoError → Option GoError
  first_failure none e = Option.map (wrapped "rabbitmq close") e
  first_failure (some d) e = some (wrapped "rabbitmq close" d)

  shut_channel : Option Handle → Outside W → Option GoError × Outside W
  unfolding failure close_channel
  shut_channel none s = (none, s)
  shut_channel (some ch) s = let (e, s') = close_channel env ch s in (failure e, s')

  shut_conn : Option Handle → Outside W → Option GoError × Outside W
  unfolding failure close_conn
  shut_conn none s = (none, s)
  shut_conn (some conn) s = let (e, s') = close_conn env conn s in (failure e, s')

  -- `Close`: both handles are given up, and the first error is returned.
  unfoldable pub close : Link → Outside W → (Option GoError × Link) × Outside W
  unfolding shut_channel shut_conn first_failure
  close link s =
      let (d, s1) = shut_channel link.channel s in
      let (e, s2) = shut_conn link.conn s1 in
      ((first_failure d e, record { conn = none; channel = none }), s2)

-- The producer's link, and whether its reconnect channel, which holds one signal, is full.
pub record Producer : Type 0 where
  pub link : Link
  pub signalled : Bool

abbrev is_none : Option GoError → Bool
is_none none = true
is_none (some e) = false

-- The producer's `connect`: a success is signalled, unless a signal is waiting.
unfoldable pub producer_connect :
    {W : Type 0} → Env W → Producer → Outside W → (Option GoError × Producer) × Outside W
producer_connect env p s =
    let ((e, link), s') = connect env p.link s in
    ((e, record { link = link; signalled = is_none e || p.signalled }), s')
