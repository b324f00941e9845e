-- ===== src/Messaging/Consume/Settlement.antt =====
-- Every delivery that the handler has seen is settled once, in the way that its result asks for.
use clusterprobe.Prelude.{
  ℕ, zero, suc, String, Option, none, some, List, [], ◌∷◌, if◌then◌else◌, ◌≡◌, arith, refl,
}
use clusterprobe.Go.Int64.{ℤ, pos}
use clusterprobe.Go.Errors.{GoError, as_unrecoverable}
use clusterprobe.Messaging.Broker.{
  Env, Outside, Delivery, Event, did_handle, did_ack, did_nack, did_wait,
}
use clusterprobe.Messaging.Connection.{Link, connect, reconnect_from, reconnect}
use clusterprobe.Retry.{next_backoff}
use clusterprobe.Messaging.Consume.{
  Consumer, Arrival, context_done, closed, delivery, Round, Ending, consume_once, process, receive,
  consume_rounds, run_consumer,
}

-- What becomes of a delivery: done with, sent to the dead-letter exchange, or put back.
pub data Fate : Type 0 where
  accepted dead_lettered requeued : Fate

-- What the result of the handler asks for.
abbrev pub fate_of : Option GoError → Fate
fate_of none = accepted
fate_of (some e) = if as_unrecoverable e then dead_lettered else requeued

-- The deliveries that the handler has seen, and those that were settled, newest first.
abbrev pub handled : List Event → List (Delivery × Fate)
handled [] = []
handled (did_handle d r ∷ es) = (d, fate_of r) ∷ handled es
handled (_ ∷ es) = handled es

abbrev pub settled : List Event → List (Delivery × Fate)
settled [] = []
settled (did_ack d e ∷ es) = (d, accepted) ∷ settled es
settled (did_nack d again e ∷ es) = (d, if again then requeued else dead_lettered) ∷ settled es
settled (_ ∷ es) = settled es

abbrev IsSettled : List Event → Type 0
IsSettled es = handled es ≡ settled es

module _ {W : Type 0} (env : Env W) where
  connect-IsSettled :
      (link : Link) (s : Outside W) → IsSettled s.trace → IsSettled (connect env link s).1.trace
  unfolding connect
  connect-IsSettled link s h = ground arith

  reconnect_from-IsSettled :
      (n : ℕ) (backoff : ℤ) (link : Link) (s : Outside W)
      → IsSettled s.trace
      → IsSettled (reconnect_from env n backoff link s).1.trace
  unfolding reconnect_from
  reconnect_from-IsSettled zero backoff link s h = h
  reconnect_from-IsSettled (suc n) backoff link s h =
      let ((e, link'), s') = connect env link s in
      let (b, w) = env.wait backoff s'.world in
      let s2 : Outside W = record { world = w; trace = did_wait backoff b ∷ s'.trace } in
      ground (
        arith,
        connect-IsSettled link s h,
        reconnect_from-IsSettled n (next_backoff backoff) link' s2,
      )

  consume_once-IsSettled :
      (c : Consumer) (s : Outside W) → IsSettled s.trace → IsSettled (consume_once env c s).1.trace
  unfolding consume_once
  consume_once-IsSettled c s h = ground arith

module _ {W : Type 0} (env : Env W) (handler : Delivery → W → Option GoError × W) where
  process-IsSettled :
      (d : Delivery) (s : Outside W)
      → IsSettled s.trace
      → IsSettled (process env handler d s).1.trace
  unfolding process
  process-IsSettled d s h = ground arith

  receive-IsSettled :
      (arrivals : List Arrival) (again : Outside W → (Ending × Consumer) × Outside W) (c : Consumer)
      (s : Outside W)
      → ((t : Outside W) → IsSettled t.trace → IsSettled (again t).1.trace)
      → IsSettled s.trace
      → IsSettled (receive env handler arrivals again c s).1.trace
  unfolding receive
  receive-IsSettled [] again c s k h = h
  receive-IsSettled (context_done ∷ arrivals) again c s k h = h
  receive-IsSettled (closed ∷ arrivals) again c s k h = k s h
  receive-IsSettled (delivery d ∷ arrivals) again c s k h =
      let (e, t) = process env handler d s in
      ground (arith, process-IsSettled d s h, receive-IsSettled arrivals again c t k)

  consume_rounds-IsSettled :
      (rounds : List Round) (c : Consumer) (s : Outside W)
      → IsSettled s.trace
      → IsSettled (consume_rounds env handler rounds c s).1.trace
  unfolding consume_rounds reconnect
  consume_rounds-IsSettled [] c s h = h
  consume_rounds-IsSettled (r ∷ rounds) c s h =
      let (e, s1) = consume_once env c s in
      let (link, s2) = reconnect_from env 10 (pos 500000000) c.link s1 in
      ground (
        arith,
        consume_once-IsSettled env c s h,
        receive-IsSettled r.arrivals (consume_rounds env handler rounds c) c s1
            (consume_rounds-IsSettled rounds c),
        reconnect_from-IsSettled env 10 (pos 500000000) c.link s1,
        consume_rounds-IsSettled rounds (record c { link = link }) s2,
      )

  -- However the broker, the connection and the handler behave, `Consume` settles the deliveries that
  -- its handler has seen once each and in their order: it acknowledges those that the handler
  -- accepts, sends those refused with an `UnrecoverableError` to the dead letters and puts all other
  -- refused ones back. The calls that settle are counted whether or not they report an error.
  pub run_consumer-settled :
      (queue : String) (rounds : List Round) (c : Consumer) (w : W)
      → handled (run_consumer env handler queue rounds c (record { world = w; trace = [] })).1.trace
        ≡ settled
            (run_consumer env handler queue rounds c (record { world = w; trace = [] })).1.trace
  unfolding run_consumer
  run_consumer-settled queue rounds c w = ground (
    arith,
    consume_rounds-IsSettled rounds (record c { queue = queue }) (record { world = w; trace = [] })
        refl,
  )
