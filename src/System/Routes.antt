-- ===== src/System/Routes.antt =====
-- From the topology that `DeclareTopology` makes to the consumers of cmd/worker: the queues that a
-- routing key leads to, and those that the consumers serve.
use clusterprobe.Prelude.{
  ℕ, zero, suc, ◌≤◌, ◌≡◌, ◌↔◌, ◌⊎◌, inl, inr, refl, ap, ◌∙◌, arith, String, Bool, true, false, ◌&&◌,
  ◌||◌, List, [], ◌∷◌, some, length, str_eq, str_eq_iff, if◌then◌else◌,
}
use clusterprobe.Go.Errors.{Result, ok}
use clusterprobe.Messaging.Broker.{Handle, Env, Declaration, queue_bind}
use clusterprobe.Messaging.Connection.{Link}
use clusterprobe.Messaging.Topology.{
  declare_topology, exchange_name, queue_high, queue_low, queue_chaos,
}
use clusterprobe.Messaging.Topology.Plan.{
  made, declare_topology-made, reversed_onto, declarations, topology_plan,
}
use clusterprobe.Worker.Pool.{
  Started, End, queue_picker, start_consumers, start_consumers-IsPool, queues_of, queues_from,
}

-- The queues that a topic exchange routes a message to: where no binding key has a wildcard, as here,
-- those that are bound with the routing key itself.
abbrev pub bound_queues : (exchange key : String) → List Declaration → List String
bound_queues exchange key [] = []
bound_queues exchange key (queue_bind q k x ∷ ds) =
    if str_eq x exchange && str_eq k key
    then q ∷ bound_queues exchange key ds
    else bound_queues exchange key ds
bound_queues exchange key (_ ∷ ds) = bound_queues exchange key ds

abbrev pub is_among : String → List String → Bool
is_among q [] = false
is_among q (s ∷ served) = str_eq s q || is_among q served

-- Whether one of the queues is served.
abbrev pub is_taken : (queues served : List String) → Bool
is_taken [] served = false
is_taken (q ∷ queues) served = is_among q served || is_taken queues served

abbrev pub IsServed : String → Type 0
IsServed key = (key ≡ queue_high) ⊎ (key ≡ queue_low)

picked : (i : ℕ) → IsServed (queue_picker i)
unfolding queue_picker
picked i = ground arith

among_picked :
    (q : String) (n i : ℕ) → is_among q (queues_from queue_picker n i) ≡ true → IsServed q
among_picked q zero i h = ground arith
among_picked q (suc n) i h =
    ground (arith, str_eq_iff (queue_picker i) q, picked i, among_picked q n (suc i))

both_among :
    (n : ℕ)
    → 2 ≤ n
    → (is_among queue_high (queues_from queue_picker n 0) ≡ true)
      × (is_among queue_low (queues_from queue_picker n 0) ≡ true)
unfolding queue_picker
both_among zero h = ground arith
both_among (suc zero) h = ground arith
both_among (suc (suc n)) h = (refl, refl)

abbrev topology : List Declaration
topology = reversed_onto (declarations topology_plan) []

abbrev IsOther : String → Type 0
IsOther key =
    (str_eq queue_chaos key ≡ false)
    × (str_eq queue_low key ≡ false)
    × (str_eq queue_high key ≡ false)

key_cases :
    (key : String) → (key ≡ queue_chaos) ⊎ ((key ≡ queue_low) ⊎ ((key ≡ queue_high) ⊎ IsOther key))
key_cases key =
    ground (arith, str_eq_iff queue_chaos key, str_eq_iff queue_low key, str_eq_iff queue_high key)

-- What a routing key leads to: the queue of its name, or nothing.
pub record IsRouted (served : List String) (key : String) (queues : List String) : Type 0 where
  pub one_queue : length queues ≤ 1
  pub taken_iff : (is_taken queues served ≡ true) ↔ IsServed key

own_queue-IsRouted :
    (n : ℕ) (key : String) → 2 ≤ n → IsRouted (queues_from queue_picker n 0) key (key ∷ [])
own_queue-IsRouted n key h = record {
  one_queue = omega arith;
  taken_iff = (
    λ t. among_picked key n 0 (ground arith),
    λ k. elim k [
      | inl e ↦ rw e (ground (arith, both_among n h))
      | inr e ↦ rw e (ground (arith, both_among n h))
    ],
  );
}

other-IsRouted : (served : List String) (key : String) → IsOther key → IsRouted served key []
other-IsRouted served key o = record {
  one_queue = omega arith;
  taken_iff = (ground arith, ground (arith, str_eq_iff queue_low key, str_eq_iff queue_high key));
}

topology-IsRouted :
    (n : ℕ) (key : String)
    → 2 ≤ n
    → IsRouted (queues_from queue_picker n 0) key (bound_queues exchange_name key topology)
topology-IsRouted n key h = elim (key_cases key) [
  | inl e ↦ rw e (own_queue-IsRouted n queue_chaos h)
  | inr (inl e) ↦ rw e (own_queue-IsRouted n queue_low h)
  | inr (inr (inl e)) ↦ rw e (own_queue-IsRouted n queue_high h)
  | inr (inr (inr o)) ↦ rw (o.0, o.1, o.2) (other-IsRouted _ key o)
]

-- Once `DeclareTopology` has succeeded and a worker with two consumers or more is ready, a message
-- for the exchange is routed to one queue at most, and to one that the worker serves exactly if its
-- routing key is workload.high or workload.low.
pub declare_topology-IsRouted :
    {W V : Type 0} (env : Env W) (link : Link) (ch : Handle) (w : W)
    (factory : V → Result Handle × V) (finish : List Started → V → List End × V) (worker_count : ℕ)
    (v : V) (key : String)
    → link.channel ≡ some ch
    → (declare_topology env link (record { world = w; trace = [] })).0 ≡ ok tt
    → 2 ≤ worker_count
    → (start_consumers queue_picker factory finish worker_count v).ready ≡ true
    → IsRouted
        (queues_of (start_consumers queue_picker factory finish worker_count v).started)
        key
        (bound_queues exchange_name key
          (made (declare_topology env link (record { world = w; trace = [] })).1.trace))
declare_topology-IsRouted env link ch w factory finish worker_count v key h k two ready =
    let pool = (start_consumers-IsPool factory finish worker_count v).0 in
    let served = pool.queues ∙ ap (λ n. queues_from queue_picker n 0) (pool.all_ready.0 ready) in
    rw (declare_topology-made env link ch _ h k, served) (topology-IsRouted worker_count key two)
