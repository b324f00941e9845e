-- ===== src/Messaging/Tests.antt =====
-- internal/messaging at concrete inputs.
use clusterprobe.Prelude.{
  ℕ, ◌+◌, false, Option, none, some, List, [], ◌∷◌, ◌≡◌, refl, arith, if◌then◌else◌, leb, ltb,
}
use clusterprobe.Go.Int64.{pos, ◌*ℤ◌}
use clusterprobe.Go.Errors.{
  GoError, ok, err, msg, wrapped, unrecoverable, as_unrecoverable, amqp_closed,
}
use clusterprobe.Messaging.Carrier.{Table, str, other}
use clusterprobe.Messaging.Broker.{Handle, Env, Outside, Delivery, did_dial, did_open}
use clusterprobe.Messaging.Connection.{Link, connect, reconnect, reconnect_from, close}
use clusterprobe.Retry.{next_backoff}
use clusterprobe.Messaging.Connection.Handles.{
  one_if, IsAccounted, reconnect-IsAccounted, close-IsAccounted, conns_opened, conns_closed,
  channels_opened, channels_closed,
}
use clusterprobe.Messaging.Connection.Backoff.{waited}
use clusterprobe.Messaging.Topology.{
  declare_topology, declare_on_channel, declare_queues, declare_queue, declare_on,
}
use clusterprobe.Messaging.Consume.{
  Consumer, Round, delivery, Ending, returned, process, run_consumer, consume_rounds, receive,
  consume_once,
}
use clusterprobe.Messaging.Consume.Settlement.{handled, settled, run_consumer-settled}

abbrev headers : Table
headers = ("count", other "3") ∷ ("traceparent", str "00-1") ∷ []

-- The world counts the connections that were dialed; dialing fails until the third attempt, and a
-- `Nack` fails.
abbrev flaky : Env ℕ
flaky = record {
  dial = λ w. (if ltb w 2 then err (msg "connection refused") else ok w, w + 1);
  open_channel = λ conn w. (ok (conn + 100), w);
  close_conn = λ conn w. (some amqp_closed, w);
  close_channel = λ ch w. (none, w);
  declare = λ ch d w. (none, w);
  publish = λ ch x key m w. (none, w);
  qos = λ ch n w. (none, w);
  consume = λ ch queue w. (none, w);
  ack = λ d w. (none, w);
  nack = λ d again w. (some (msg "channel closed"), w);
  wait = λ d w. (false, w);
}

abbrev old_link : Link
old_link = record { conn = some 70; channel = some 71 }

abbrev fresh : Outside ℕ
fresh = record { world = 0; trace = did_open 70 (ok 71) ∷ did_dial (ok 70) ∷ [] }

third_attempt : (reconnect flaky old_link fresh).0 ≡ record { conn = some 2; channel = some 102 }
unfolding reconnect reconnect_from connect next_backoff ◌*ℤ◌
third_attempt = refl

reconnect_waits : waited (reconnect flaky old_link fresh).1.trace ≡ 1500000000
unfolding reconnect reconnect_from connect next_backoff ◌*ℤ◌
reconnect_waits = refl

-- Each handle has an account of its own.
counted_apart : (conns_opened 70 fresh.trace ≡ 1) × (conns_opened 71 fresh.trace ≡ 0)
unfolding one_if
counted_apart = (refl, refl)

fresh-IsAccounted : IsAccounted old_link fresh.trace
fresh-IsAccounted = record { each = λ x. record { conns = ground arith; channels = ground arith } }

reconnect-IsAccounted_example :
    IsAccounted (reconnect flaky old_link fresh).0 (reconnect flaky old_link fresh).1.trace
reconnect-IsAccounted_example = reconnect-IsAccounted flaky old_link fresh fresh-IsAccounted

close-IsAccounted_example :
    ((close flaky old_link fresh).0.1 ≡ record { conn = none; channel = none })
    × ((x : Handle)
        → conns_opened x (close flaky old_link fresh).1.trace
          ≡ conns_closed x (close flaky old_link fresh).1.trace)
    × ((x : Handle)
        → channels_opened x (close flaky old_link fresh).1.trace
          ≡ channels_closed x (close flaky old_link fresh).1.trace)
close-IsAccounted_example = close-IsAccounted flaky old_link fresh fresh-IsAccounted

topology_declared : (declare_topology flaky old_link fresh).0 ≡ ok tt
unfolding declare_topology declare_on_channel declare_queues declare_queue declare_on
topology_declared = refl

abbrev message : ℕ → Delivery
message tag = record { tag = tag; routing_key = "workload.high"; headers = []; body = "{}" }

-- Refuses the second message for good.
abbrev picky : Delivery → ℕ → Option GoError × ℕ
picky d w = (if leb 2 d.tag then some (unrecoverable (msg "decode scenario")) else none, w)

abbrev rounds : List Round
rounds =
    record {
      done_first = false;
      arrivals = delivery (message 1) ∷ delivery (message 2) ∷ delivery (message 3) ∷ [];
      done_in_pause = false;
    }
    ∷ []

abbrev worker : Consumer
worker = record { link = old_link; queue = ""; prefetch = pos 1 }

abbrev consumed : (Ending × Consumer) × Outside ℕ
consumed = run_consumer flaky picky "workload.high" rounds worker (record { world = 0; trace = [] })

stops_at_failed_nack :
    consumed.0.0 ≡ returned (some (wrapped "nack message" (msg "channel closed")))
unfolding run_consumer consume_rounds receive process consume_once as_unrecoverable
stops_at_failed_nack = refl

run_consumer-settled_example : handled consumed.1.trace ≡ settled consumed.1.trace
run_consumer-settled_example = run_consumer-settled flaky picky "workload.high" rounds worker 0
