-- ===== src/Messaging/Connection/Handles.antt =====
-- The accounts of the connections and channels that `reconnect` and `Close` of
-- internal/messaging/rabbitmq.go open and close, one account for each handle.
use clusterprobe.Prelude.{
  if◌then◌else◌, ◌==◌, ℕ, zero, suc, ◌+◌, Bool, Option, none, some, List, [], ◌∷◌, ◌≡◌, arith,
}
use clusterprobe.Go.Int64.{ℤ, pos}
use clusterprobe.Go.Errors.{Result, ok, err}
use clusterprobe.Messaging.Broker.{
  Handle, Env, Outside, Event, did_dial, did_open, did_close_conn, did_close_channel, did_wait,
}
use clusterprobe.Messaging.Connection.{Link, connect, reconnect_from, reconnect, close}
use clusterprobe.Retry.{next_backoff}

-- 1 for the handle itself, 0 for any other.
unfoldable pub one_if : Handle → Handle → ℕ
one_if h x = if h == x then 1 else 0

abbrev pub given : Handle → Result Handle → ℕ
given h (ok x) = one_if h x
given h (err e) = 0

-- How often the broker gave the connection or the channel `h`, and how often it was closed.
abbrev pub conns_opened : Handle → List Event → ℕ
conns_opened h [] = 0
conns_opened h (did_dial r ∷ es) = given h r + conns_opened h es
conns_opened h (_ ∷ es) = conns_opened h es

abbrev pub conns_closed : Handle → List Event → ℕ
conns_closed h [] = 0
conns_closed h (did_close_conn x e ∷ es) = one_if h x + conns_closed h es
conns_closed h (_ ∷ es) = conns_closed h es

abbrev pub channels_opened : Handle → List Event → ℕ
channels_opened h [] = 0
channels_opened h (did_open x r ∷ es) = given h r + channels_opened h es
channels_opened h (_ ∷ es) = channels_opened h es

abbrev pub channels_closed : Handle → List Event → ℕ
channels_closed h [] = 0
channels_closed h (did_close_channel x e ∷ es) = one_if h x + channels_closed h es
channels_closed h (_ ∷ es) = channels_closed h es

-- 1 if the link holds this very handle.
abbrev pub held : Handle → Option Handle → ℕ
held h none = 0
held h (some x) = one_if h x

-- The handle `h` was closed as often as it was given, but for the one that the link holds.
pub record IsAccountedFor (h : Handle) (link : Link) (es : List Event) : Type 0 where
  pub conns : conns_opened h es ≡ conns_closed h es + held h link.conn
  pub channels : channels_opened h es ≡ channels_closed h es + held h link.channel

-- So it is for every handle.
pub record IsAccounted (link : Link) (es : List Event) : Type 0 where
  pub each : (h : Handle) → IsAccountedFor h link es

module _ {W : Type 0} (env : Env W) where
  pub connect-IsAccountedFor :
      (x : Handle) (link : Link) (s : Outside W)
      → IsAccountedFor x link s.trace
      → IsAccountedFor x (connect env link s).0.1 (connect env link s).1.trace
  unfolding connect
  connect-IsAccountedFor x link s h = ground arith

  wait-IsAccountedFor :
      (x : Handle) (link : Link) (d : ℤ) (b : Bool) (es : List Event)
      → IsAccountedFor x link es
      → IsAccountedFor x link (did_wait d b ∷ es)
  wait-IsAccountedFor x link d b es h = record { conns = h.conns; channels = h.channels }

  reconnect_from-IsAccountedFor :
      (x : Handle) (attempts : ℕ) (backoff : ℤ) (link : Link) (s : Outside W)
      → IsAccountedFor x link s.trace
      → IsAccountedFor x
          (reconnect_from env attempts backoff link s).0
          (reconnect_from env attempts backoff link s).1.trace
  unfolding reconnect_from
  reconnect_from-IsAccountedFor x zero backoff link s h = h
  reconnect_from-IsAccountedFor x (suc attempts) backoff link s h =
      let ((e, link'), s') = connect env link s in
      let (b, w) = env.wait backoff s'.world in
      let s2 : Outside W = record { world = w; trace = did_wait backoff b ∷ s'.trace } in
      ground (
        arith,
        connect-IsAccountedFor x link s h,
        reconnect_from-IsAccountedFor x attempts (next_backoff backoff) link' s2,
      )

  close-IsAccountedFor :
      (x : Handle) (link : Link) (s : Outside W)
      → IsAccountedFor x link s.trace
      → (conns_opened x (close env link s).1.trace ≡ conns_closed x (close env link s).1.trace)
        × (channels_opened x (close env link s).1.trace
            ≡ channels_closed x (close env link s).1.trace)
  unfolding close
  close-IsAccountedFor x link s h = ground arith

  close-link :
      (link : Link) (s : Outside W)
      → (close env link s).0.1 ≡ record { conn = none; channel = none }
  unfolding close
  close-link link s = ground arith

  -- Reconnecting leaks no handle: if each connection and each channel was closed as often as the
  -- broker gave it, but for the ones that the link holds, then so it is after `reconnect` with the
  -- link that it leaves, however the attempts end.
  pub reconnect-IsAccounted :
      (link : Link) (s : Outside W)
      → IsAccounted link s.trace
      → IsAccounted (reconnect env link s).0 (reconnect env link s).1.trace
  unfolding reconnect
  reconnect-IsAccounted link s h = record {
    each = λ x. reconnect_from-IsAccountedFor x 10 (pos 500000000) link s (h.each x);
  }

  -- If each connection and each channel was closed as often as the broker gave it, but for the ones
  -- that the link holds, then after `Close` the link holds nothing and each was closed as often as it
  -- was given, even where closing reports an error.
  pub close-IsAccounted :
      (link : Link) (s : Outside W)
      → IsAccounted link s.trace
      → ((close env link s).0.1 ≡ record { conn = none; channel = none })
        × ((x : Handle)
            → conns_opened x (close env link s).1.trace ≡ conns_closed x (close env link s).1.trace)
        × ((x : Handle)
            → channels_opened x (close env link s).1.trace
              ≡ channels_closed x (close env link s).1.trace)
  close-IsAccounted link s h = (
    close-link link s,
    λ x. (close-IsAccountedFor x link s (h.each x)).0,
    λ x. (close-IsAccountedFor x link s (h.each x)).1,
  )
