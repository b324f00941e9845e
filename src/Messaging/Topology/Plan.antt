-- ===== src/Messaging/Topology/Plan.antt =====
-- `DeclareTopology` carries out a plan: a list of declarations that is known beforehand.
use clusterprobe.Prelude.{String, ◌<>◌, none, some, List, [], ◌∷◌, ◌++◌, ◌≡◌, refl, arith}
use clusterprobe.Go.Errors.{Result, ok}
use clusterprobe.Go.Action.{Action, ◌>>◌, pass, within}
use clusterprobe.Messaging.Broker.{
  Handle, Env, Outside, Declaration, exchange_declare, queue_declare, queue_bind, Event,
  did_declare,
}
use clusterprobe.Messaging.Connection.{Link}
use clusterprobe.Messaging.Topology.{
  declare_on, declare_queue, declare_queues, declare_on_channel, declare_topology, queues, dlx_name,
  exchange_name,
}

abbrev pub Plan : Type 0
Plan = List (String × Declaration)

-- The declarations of one queue, each with the label of its error.
abbrev pub queue_plan : String → String → Plan
queue_plan name key =
    ("declare dlq " <> (name <> ".dlq"), queue_declare (name <> ".dlq") none)
    ∷ ("bind dlq " <> (name <> ".dlq"), queue_bind (name <> ".dlq") key dlx_name)
    ∷ (
      "declare queue " <> name,
      queue_declare name (some (record { exchange = dlx_name; routing_key = key })),
    )
    ∷ ("bind queue " <> name, queue_bind name key exchange_name)
    ∷ []

abbrev pub queues_plan : List (String × String) → Plan
queues_plan [] = []
queues_plan ((name, key) ∷ rest) = queue_plan name key ++ queues_plan rest

abbrev pub topology_plan : Plan
topology_plan =
    ("declare exchange", exchange_declare exchange_name "topic")
    ∷ ("declare dlx", exchange_declare dlx_name "topic")
    ∷ queues_plan queues

-- The successful declarations of a trace, the newest first.
abbrev pub made : List Event → List Declaration
made [] = []
made (did_declare d none ∷ es) = d ∷ made es
made (_ ∷ es) = made es

-- `ds` reversed, in front of `rest`.
abbrev pub reversed_onto : List Declaration → List Declaration → List Declaration
reversed_onto [] rest = rest
reversed_onto (d ∷ ds) rest = reversed_onto ds (d ∷ rest)

abbrev pub declarations : Plan → List Declaration
declarations [] = []
declarations ((label, d) ∷ plan) = d ∷ declarations plan

module _ {W : Type 0} (env : Env W) where
  -- One declaration after the other, up to the first that fails.
  pub carry_out : Handle → Plan → Action (Outside W) (Unit {0})
  carry_out ch [] = pass tt
  carry_out ch ((label, d) ∷ plan) = do within label (declare_on env ch d); carry_out ch plan

  carry_out-append :
      (ch : Handle) (p q : Plan) (s : Outside W)
      → carry_out ch (p ++ q) s ≡ (do carry_out ch p; carry_out ch q) s
  unfolding carry_out
  carry_out-append ch [] q s = refl
  carry_out-append ch ((label, d) ∷ p) q s =
      ground (arith, carry_out-append ch p q (declare_on env ch d s).1)

  declare_queue-carry_out :
      (ch : Handle) (name key : String) (s : Outside W)
      → declare_queue env ch name key s ≡ carry_out ch (queue_plan name key) s
  unfolding declare_queue carry_out
  declare_queue-carry_out ch name key s = ground arith

  declare_queues-carry_out :
      (ch : Handle) (qs : List (String × String)) (s : Outside W)
      → declare_queues env ch qs s ≡ carry_out ch (queues_plan qs) s
  unfolding declare_queues
  declare_queues-carry_out ch [] s = unfold carry_out in refl
  declare_queues-carry_out ch ((name, key) ∷ qs) s =
      rw (carry_out-append ch (queue_plan name key) (queues_plan qs) s) (
        ground (
          arith,
          declare_queue-carry_out ch name key s,
          declare_queues-carry_out ch qs (carry_out ch (queue_plan name key) s).1,
        ))

  -- `DeclareTopology` on a channel makes the declarations of the plan one after the other, up to the
  -- first that fails, and fails with that one's error under its label.
  pub declare_topology-carry_out :
      (link : Link) (ch : Handle) (s : Outside W)
      → link.channel ≡ some ch
      → declare_topology env link s ≡ carry_out ch topology_plan s
  unfolding declare_topology declare_on_channel carry_out
  declare_topology-carry_out link ch s h =
      let x1 : Result (Unit {0}) × Outside W =
        declare_on env ch (exchange_declare exchange_name "topic") s in
      let x2 : Result (Unit {0}) × Outside W =
        declare_on env ch (exchange_declare dlx_name "topic") x1.1 in
      ground (arith, declare_queues-carry_out ch queues x2.1)

  carry_out-made :
      (ch : Handle) (plan : Plan) (s : Outside W)
      → (carry_out ch plan s).0 ≡ ok tt
      → made (carry_out ch plan s).1.trace ≡ reversed_onto (declarations plan) (made s.trace)
  unfolding carry_out declare_on
  carry_out-made ch [] s h = refl
  carry_out-made ch ((label, d) ∷ plan) s h =
      ground (arith, carry_out-made ch plan (declare_on env ch d s).1)

  -- If `DeclareTopology` succeeds, the broker has accepted exactly the declarations of the plan.
  pub declare_topology-made :
      (link : Link) (ch : Handle) (s : Outside W)
      → link.channel ≡ some ch
      → (declare_topology env link s).0 ≡ ok tt
      → made (declare_topology env link s).1.trace
        ≡ reversed_onto (declarations topology_plan) (made s.trace)
  declare_topology-made link ch s h k =
      let e : declare_topology env link s ≡ carry_out ch topology_plan s =
        declare_topology-carry_out link ch s h in
      rw e (carry_out-made ch topology_plan s (rw e at k))
