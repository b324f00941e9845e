-- ===== src/Messaging/Consume.antt =====
-- `Publish`, `consumeOnce` and `Consume` of internal/messaging/rabbitmq.go. The loops of `Consume`
-- run over a script of what the `select`s receive; where the script ends the consumer waits.
pub mod Settlement
pub mod Spans
use clusterprobe.Prelude.{
  ℕ, String, ◌<>◌, Bool, true, false, not, Option, none, some, List, [], ◌∷◌, if◌then◌else◌, str_eq,
}
use clusterprobe.Go.Int64.{ℤ, pos, leb_ℤ}
use clusterprobe.Go.Errors.{GoError, Result, ok, err, msg, wrapped, of_error, as_unrecoverable}
use clusterprobe.Go.Action.{Action, ◌>>=◌, ◌>>◌, lift, pass, within}
use clusterprobe.Messaging.Carrier.{Table}
use clusterprobe.Messaging.Broker.{
  Handle, Env, Outside, Publishing, Delivery, publish, qos, consume, ack, nack, did_handle,
  span_start, span_end, wait,
}
use clusterprobe.Messaging.Connection.{Link, reconnect}

pub record Consumer : Type 0 where
  pub link : Link
  pub queue : String
  pub prefetch : ℤ

-- The prefetch count of `NewConsumer`.
unfoldable pub prefetch_of : ℤ → ℤ
prefetch_of n = if leb_ℤ n (pos 0) then pos 1 else n

-- What the `select` of the inner loop receives.
pub data Arrival : Type 0 where
  context_done closed : Arrival
  delivery : Delivery → Arrival

-- One round of the outer loop: whether the context is done at its start, what the inner loop
-- receives, and whether the context is done in the pause after a failed setup.
pub record Round : Type 0 where
  pub done_first : Bool
  pub arrivals : List Arrival
  pub done_in_pause : Bool

-- `Consume` waits, or has returned nil or an error.
pub data Ending : Type 0 where
  waiting : Ending
  returned : Option GoError → Ending

module _ {W : Type 0} (env : Env W) where
  -- `Producer.Publish`. The propagator fills the empty headers; the spans are left out.
  unfoldable pub publish_message :
      (Table → Table) → Link → (exchange key body : String) → Action (Outside W) (Unit {0})
  unfolding publish
  publish_message inject link exchange key body = elim link.channel [
    | none ↦ lift (err (msg "rabbitmq channel not available"))
    | some ch ↦
        let m : Publishing = record {
          content_type = "application/json";
          headers = inject [];
          persistent = true;
          body = body;
        } in
        within "rabbitmq publish"
          (λ s. let (e, s') = publish env ch exchange key m s in (of_error e, s'))
  ]

  unfoldable pub consume_once : Consumer → Action (Outside W) (Unit {0})
  unfolding qos consume
  consume_once c = elim c.link.channel [
    | none ↦ lift (err (msg "rabbitmq channel not available"))
    | some ch ↦ do
      within "rabbitmq qos" (λ s. let (e, s') = qos env ch c.prefetch s in (of_error e, s'))
      within "rabbitmq consume" (λ s. let (e, s') = consume env ch c.queue s in (of_error e, s'))
  ]

module _ {W : Type 0} (env : Env W) (handler : Delivery → W → Option GoError × W) where
  unfoldable pub handle : Delivery → Outside W → Option GoError × Outside W
  handle d s =
      let (e, w) = handler d s.world in (e, record { world = w; trace = did_handle d e ∷ s.trace })

  begin_span : Outside W → Outside W
  begin_span s = record s { trace = span_start ∷ s.trace }

  end_span : Outside W → Outside W
  end_span s = record s { trace = span_end ∷ s.trace }

  -- The error that a failed acknowledgement makes `Consume` return. After a failed `Nack` it returns
  -- before `span.End`.
  finish_nack : Option GoError × Outside W → Option GoError × Outside W
  unfolding end_span
  finish_nack (none, s) = (none, end_span s)
  finish_nack (some e, s) = (some (wrapped "nack message" e), s)

  finish_ack : Option GoError × Outside W → Option GoError × Outside W
  unfolding end_span
  finish_ack (none, s) = (none, end_span s)
  finish_ack (some e, s) = (some (wrapped "ack message" e), end_span s)

  settle : Delivery → Option GoError × Outside W → Option GoError × Outside W
  unfolding finish_ack finish_nack ack nack as_unrecoverable
  settle d (none, s) = finish_ack (ack env d s)
  settle d (some e, s) = finish_nack (nack env d (not (as_unrecoverable e)) s)

  -- The case of the inner loop that receives a delivery.
  unfoldable pub process : Delivery → Outside W → Option GoError × Outside W
  unfolding begin_span settle handle
  process d s = settle d (handle d (begin_span s))

  after_process :
      Option GoError × Outside W
      → (Outside W → (Ending × Consumer) × Outside W)
      → Consumer
      → (Ending × Consumer) × Outside W
  after_process (some e, s) more c = ((returned (some e), c), s)
  after_process (none, s) more c = more s

  -- The inner loop; `again` is the next round of the outer loop.
  unfoldable pub receive :
      List Arrival
      → (Outside W → (Ending × Consumer) × Outside W)
      → Consumer
      → Outside W
      → (Ending × Consumer) × Outside W
  unfolding after_process
  receive [] again c s = ((waiting, c), s)
  receive (context_done ∷ arrivals) again c s = ((returned none, c), s)
  receive (closed ∷ arrivals) again c s = again s
  receive (delivery d ∷ arrivals) again c s =
      after_process (process d s) (receive arrivals again c) c

  after_reconnect :
      Bool
      → Consumer
      → Link × Outside W
      → (Consumer → Outside W → (Ending × Consumer) × Outside W)
      → (Ending × Consumer) × Outside W
  after_reconnect true c (link, s) more = ((returned none, record c { link = link }), s)
  after_reconnect false c (link, s) more = more (record c { link = link }) s

  after_setup :
      Round
      → Consumer
      → Result (Unit {0}) × Outside W
      → (Consumer → Outside W → (Ending × Consumer) × Outside W)
      → (Ending × Consumer) × Outside W
  unfolding after_reconnect
  after_setup r c (err e, s) more = after_reconnect r.done_in_pause c (reconnect env c.link s) more
  after_setup r c (ok u, s) more = receive r.arrivals (more c) c s

  -- The outer loop.
  unfoldable pub consume_rounds :
      List Round → Consumer → Outside W → (Ending × Consumer) × Outside W
  unfolding after_setup
  consume_rounds [] c s = ((waiting, c), s)
  consume_rounds (r ∷ rounds) c s = elim r.done_first [
    | true ↦ ((returned none, c), s)
    | false ↦ after_setup r c (consume_once env c s) (consume_rounds rounds)
  ]

  -- `Consume` on a queue, with a handler that is not nil.
  unfoldable pub run_consumer :
      String → List Round → Consumer → Outside W → (Ending × Consumer) × Outside W
  run_consumer queue rounds c s = elim (str_eq queue "") [
    | true ↦ ((returned (some (msg "queue is required")), c), s)
    | false ↦ consume_rounds rounds (record c { queue = queue }) s
  ]
