-- ===== src/Messaging/Monitor/Sequential.antt =====
-- `reconnect` of internal/messaging/rabbitmq.go run by one goroutine alone: the function of
-- Messaging.Connection is a path of its moves.
use clusterprobe.Prelude.{ℕ, zero, suc, Bool, true, false, Option, none, some, List, ◌∷◌, ◌++◌}
use clusterprobe.Go.Int64.{ℤ, pos}
use clusterprobe.Go.Errors.{GoError, Result, ok, err}
use clusterprobe.Retry.{next_backoff}
use clusterprobe.Messaging.Broker.{
  Handle, Env, Outside, Event, dial, open_channel, close_conn, close_channel, wait, did_dial,
  did_open, did_wait,
}
use clusterprobe.Messaging.Connection
use clusterprobe.Messaging.Connection.{
  Link, connect, reconnect, reconnect_from, install, after_attempt, after_wait, close_old_conn,
  close_old_channel,
}
use clusterprobe.Messaging.Monitor.{
  Pc, Role, dialing, waiting, returned, closing, Move, give_up, dial_fails, dial_works,
  channel_fails, channel_works, wait_over, wait_done,
}
use clusterprobe.Messaging.Monitor

-- A path of moves of one goroutine, with the link and the trace before and after it.
pub data Walk (l : Link) (p : Pc) (trace : List Event) : Link → Pc → List Event → Type 0 where
  stay : Walk l p trace l p trace
  move :
      {l1 l2 : Link} {p1 p2 : Pc} {trace1 es : List Event}
      → Walk l p trace l1 p1 trace1
      → Move l1 p1 l2 es p2
      → Walk l p trace l2 p2 (es ++ trace1)

Walk-append :
    {l l1 : Link} {p p1 : Pc} {t t1 : List Event} {l2 : Link} {p2 : Pc} {t2 : List Event}
    → Walk l p t l1 p1 t1
    → Walk l1 p1 t1 l2 p2 t2
    → Walk l p t l2 p2 t2
Walk-append a stay = a
Walk-append a (move b m) = move (Walk-append a b) m

-- Where an attempt with this error goes.
abbrev after : Role → ℕ → ℤ → Option GoError → Pc
after r n b none = returned r
after r n b (some e) = waiting r n b

module _ {W : Type 0} (env : Env W) (r : Role) (n : ℕ) (b : ℤ) where
  installed-Walk :
      (h c : Handle) (channel conn : Option Handle) (s : Outside W)
      → Walk
          (record { conn = conn; channel = channel })
          (Monitor.opened r n b h c)
          s.trace
          (record { conn = some h; channel = some c })
          (returned r)
          (close_old_conn env conn (close_old_channel env channel s)).trace
  unfolding close_old_conn close_old_channel close_conn close_channel
  installed-Walk h c none none s = move stay (Monitor.install none none)
  installed-Walk h c (some x) none s =
      move stay (Monitor.install (env.close_channel x s.world).0 none)
  installed-Walk h c none (some y) s = move stay (Monitor.install none (env.close_conn y s.world).0)
  installed-Walk h c (some x) (some y) s =
      let (d, w) = env.close_channel x s.world in
      move stay (Monitor.install d (env.close_conn y w).0)

  install-Walk :
      (h : Handle) (link : Link) (x : Result Handle) (w : W) (trace : List Event)
      → let ((e, l), t) =
          install env h link (x, record { world = w; trace = did_open h x ∷ trace }) in
        Walk link (Monitor.dialed r n b h) trace l (after r n b e) t.trace
  unfolding install close_conn
  install-Walk h link (err e) w trace = move stay (channel_fails e (env.close_conn h w).0)
  install-Walk h link (ok c) w trace =
      Walk-append (move stay (channel_works c)) (installed-Walk h c link.channel link.conn _)

  dialed-Walk :
      (link : Link) (x : Result Handle) (w : W) (trace : List Event)
      → let ((e, l), t) =
          Connection.dialed env link (x, record { world = w; trace = did_dial x ∷ trace }) in
        Walk link (dialing r (suc n) b) trace l (after r n b e) t.trace
  unfolding Connection.dialed open_channel
  dialed-Walk link (err e) w trace = move stay (dial_fails e)
  dialed-Walk link (ok h) w trace =
      Walk-append (move stay (dial_works h))
        (install-Walk h link (env.open_channel h w).0 (env.open_channel h w).1 _)

  connect-Walk :
      (link : Link) (s : Outside W)
      → let ((e, l), t) = connect env link s in
        Walk link (dialing r (suc n) b) s.trace l (after r n b e) t.trace
  unfolding connect dial
  connect-Walk link s = dialed-Walk link (env.dial s.world).0 (env.dial s.world).1 s.trace

  after_wait-Walk :
      (link : Link) (done : Bool) (w : W) (trace : List Event)
      (more : Link → Outside W → Link × Outside W)
      → ((s : Outside W)
          → Walk link
              (dialing r n (next_backoff b))
              s.trace
              (more link s).0
              (returned r)
              (more link s).1.trace)
      → let (l, t) =
          after_wait env link (done, record { world = w; trace = did_wait b done ∷ trace }) more in
        Walk link (waiting r n b) trace l (returned r) t.trace
  unfolding after_wait
  after_wait-Walk link true w trace more path = move stay wait_done
  after_wait-Walk link false w trace more path = Walk-append (move stay wait_over) (path _)

  after_attempt-Walk :
      (e : Option GoError) (link l : Link) (s : Outside W) (p : Pc) (trace : List Event)
      (more : Link → Outside W → Link × Outside W)
      → Walk link p trace l (after r n b e) s.trace
      → ((l' : Link) (s' : Outside W)
          → Walk l'
              (dialing r n (next_backoff b))
              s'.trace
              (more l' s').0
              (returned r)
              (more l' s').1.trace)
      → let (l', t) = after_attempt env b ((e, l), s) more in
        Walk link p trace l' (returned r) t.trace
  unfolding after_attempt wait
  after_attempt-Walk none link l s p trace more attempt path = attempt
  after_attempt-Walk (some e) link l s p trace more attempt path =
      Walk-append attempt (after_wait-Walk l _ _ s.trace more (path l))

module _ {W : Type 0} (env : Env W) (r : Role) where
  reconnect_from-Walk :
      (n : ℕ) (b : ℤ) (link : Link) (s : Outside W)
      → let (l, t) = reconnect_from env n b link s in
        Walk link (dialing r n b) s.trace l (returned r) t.trace
  unfolding reconnect_from
  reconnect_from-Walk zero b link s = move stay give_up
  reconnect_from-Walk (suc n) b link s =
      after_attempt-Walk env r n b (connect env link s).0.0 link (connect env link s).0.1
        (connect env link s).1 (dialing r (suc n) b) s.trace (reconnect_from env n (next_backoff b))
        (connect-Walk env r n b link s) (reconnect_from-Walk n (next_backoff b))

  -- A goroutine that is not interrupted takes a path of moves through `reconnect` that ends with the
  -- link and the calls of the sequential function, whatever the broker answers.
  pub reconnect-Walk :
      (link : Link) (s : Outside W)
      → let (l, t) = reconnect env link s in
        Walk link (dialing r 10 (pos 500000000)) s.trace l (returned r) t.trace
  unfolding reconnect
  reconnect-Walk link s = reconnect_from-Walk 10 (pos 500000000) link s
