-- ===== src/Messaging/Monitor/Tests.antt =====
-- A client with its monitor at concrete inputs: a broker that counts its handles and accepts every
-- call, and one whose first dials are refused.
use clusterprobe.Prelude.{
  ℕ, ◌+◌, ◌-◌, false, none, some, [], ◌∷◌, ◌≡◌, refl, arith, if◌then◌else◌, ◌==◌,
}
use clusterprobe.Go.Int64.{pos}
use clusterprobe.Go.Errors.{ok, err, msg}
use clusterprobe.Messaging.Broker.{Env, Outside, did_dial, did_open}
use clusterprobe.Messaging.Connection.{Link, connect, reconnect, install}
use clusterprobe.Messaging.Connection
use clusterprobe.Messaging.Connection.Restoring.{IsRecovering, IsRestored, reconnect-IsRestored}
use clusterprobe.Messaging.Monitor.{
  Client, Steps, here, later, pick, new_client, loop_head, watching, idle, look, notified,
  dial_works, call, caller, dialed, monitor, dialing, no_link,
}
use clusterprobe.Messaging.Monitor.Accounts.{IsShared, Steps-new_client-IsShared}
use clusterprobe.Messaging.Monitor.Sequential.{Walk, reconnect-Walk}
use clusterprobe.Messaging.Monitor.Reopening.{StepsOf, close_reopened}

-- The world is the number of refusals left.
abbrev refusing : Env ℕ
refusing = record {
  dial = λ w. (if w == 0 then ok 8 else err (msg "connection refused"), w - 1);
  open_channel = λ conn w. (ok (conn + 100), w);
  close_conn = λ conn w. (none, w);
  close_channel = λ ch w. (none, w);
  declare = λ ch d w. (none, w);
  publish = λ ch x key m w. (none, w);
  qos = λ ch n w. (none, w);
  consume = λ ch queue w. (none, w);
  ack = λ d w. (none, w);
  nack = λ d again w. (none, w);
  wait = λ d w. (false, w);
}

refusing-IsRecovering : IsRecovering refusing (λ w. w)
refusing-IsRecovering = record {
  dials = λ w h. (8, ground arith);
  uses_up = λ w. omega arith;
  opens = λ h w. (h + 100, refl);
  waits = λ d w. refl;
  waiting = λ d w. omega arith;
}

abbrev lost : Link
lost = record { conn = some 3; channel = some 4 }

abbrev after_three : Outside ℕ
after_three = record { world = 3; trace = [] }

reconnect-IsRestored_example :
    IsRestored lost
      (reconnect refusing lost after_three).0
      (reconnect refusing lost after_three).1.trace
      []
reconnect-IsRestored_example =
    reconnect-IsRestored refusing-IsRecovering lost after_three (omega arith)

reconnect-Walk_example :
    Walk lost
      (dialing monitor 10 (pos 500000000))
      []
      (reconnect refusing lost after_three).0
      loop_head
      (reconnect refusing lost after_three).1.trace
reconnect-Walk_example = reconnect-Walk refusing monitor lost after_three

-- A client with two callers.
abbrev started : Client
started = record {
  link = record { conn = some 8; channel = some 108 };
  pcs = loop_head ∷ idle ∷ idle ∷ [];
  trace = did_open 8 (ok 108) ∷ did_dial (ok 8) ∷ [];
}

started_new : new_client refusing "amqp://mq" 2 0 ≡ ok started
unfolding new_client connect install Connection.dialed
started_new = refl

-- The monitor sees the loss of the connection and dials again, while a caller does so too.
abbrev racing : Client
racing = record {
  link = started.link;
  pcs = dialed monitor 9 (pos 500000000) 9 ∷ dialing caller 10 (pos 500000000) ∷ idle ∷ [];
  trace = did_dial (ok 9) ∷ started.trace;
}

race : Steps started racing
race =
    later
      (later (later (later here (pick 0 refl (look {h = 8} refl))) (pick 0 refl notified))
        (pick 1 refl call))
      (pick 0 refl (dial_works 9))

Steps-new_client-IsShared_example : IsShared racing
Steps-new_client-IsShared_example =
    Steps-new_client-IsShared refusing "amqp://mq" 2 0 started_new race

abbrev watched : Client
watched = record started { pcs = watching 8 ∷ idle ∷ idle ∷ [] }

close_reopened_example :
    (u : Client) × (t : Client) × Steps watched u
    × (u.link ≡ no_link)
    × (u.pcs ≡ watched.pcs)
    × StepsOf 0 u t
    × (t.link ≡ record { conn = some 9; channel = some 109 })
close_reopened_example = close_reopened watched 0 1 8 9 109 refl refl
