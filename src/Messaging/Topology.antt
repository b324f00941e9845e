-- ===== src/Messaging/Topology.antt =====
-- `DeclareTopology` of internal/messaging/rabbitmq.go: the exchanges, queues and bindings.
pub mod Plan
use clusterprobe.Prelude.{ℕ, String, ◌<>◌, Bool, Option, none, some, List, [], ◌∷◌}
use clusterprobe.Go.Errors.{GoError, Result, ok, err, msg, of_error}
use clusterprobe.Go.Action.{Action, ◌>>=◌, ◌>>◌, lift, pass, within}
use clusterprobe.Messaging.Broker.{
  Handle, Env, Outside, declare, Declaration, exchange_declare, queue_declare, queue_bind,
  DeadLetter,
}
use clusterprobe.Messaging.Connection.{Link}

abbrev pub exchange_name : String
exchange_name = "clusterprobe.events"

abbrev pub dlx_name : String
dlx_name = "clusterprobe.events.dlx"

abbrev pub queue_high : String
queue_high = "workload.high"

abbrev pub queue_low : String
queue_low = "workload.low"

abbrev pub queue_chaos : String
queue_chaos = "workload.chaos"

-- The names and routing keys of the queues.
abbrev pub queues : List (String × String)
queues =
    (queue_high, "workload.high")
    ∷ (queue_low, "workload.low")
    ∷ (queue_chaos, "workload.chaos")
    ∷ []

module _ {W : Type 0} (env : Env W) where
  unfoldable pub declare_on : Handle → Declaration → Action (Outside W) (Unit {0})
  unfolding declare
  declare_on ch d s = let (e, s') = declare env ch d s in (of_error e, s')

  -- The body of the loop over the queues.
  unfoldable pub declare_queue : Handle → String → String → Action (Outside W) (Unit {0})
  declare_queue ch name key = do
    let dlq = name <> ".dlq"
    within ("declare dlq " <> dlq) (declare_on ch (queue_declare dlq none))
    within ("bind dlq " <> dlq) (declare_on ch (queue_bind dlq key dlx_name))
    within ("declare queue " <> name) (
        declare_on ch
          (queue_declare name (some (record { exchange = dlx_name; routing_key = key }))))
    within ("bind queue " <> name) (declare_on ch (queue_bind name key exchange_name))

  unfoldable pub declare_queues : Handle → List (String × String) → Action (Outside W) (Unit {0})
  declare_queues ch [] = pass tt
  declare_queues ch ((name, key) ∷ rest) = do declare_queue ch name key; declare_queues ch rest

  unfoldable pub declare_on_channel : Handle → Action (Outside W) (Unit {0})
  declare_on_channel ch = do
    within "declare exchange" (declare_on ch (exchange_declare exchange_name "topic"))
    within "declare dlx" (declare_on ch (exchange_declare dlx_name "topic"))
    declare_queues ch queues

  unfoldable pub declare_topology : Link → Action (Outside W) (Unit {0})
  declare_topology link = elim link.channel [
    | none ↦ lift (err (msg "rabbitmq channel not available"))
    | some ch ↦ declare_on_channel ch
  ]
