-- ===== src/Worker/Pool.antt =====
-- `startConsumers` of cmd/worker/main.go with the `queuePicker` of its `main`. Each consumer runs in a
-- goroutine of its own: how they end, once the context has, is a list in the order of the ends.
use clusterprobe.Prelude.{
  ◌∙◌, ap, ℕ, zero, suc, ◌+◌, ◌%◌, ◌≤◌, ◌<◌, ◌≡◌, ◌≢◌, ◌↔◌, ◌⊎◌, inl, inr, refl, arith, String,
  ◌<>◌, Bool, true, false, Option, none, some, List, [], ◌∷◌, ◌++◌, ◌==◌, str_eq_iff, if◌then◌else◌,
}
use clusterprobe.Go.Errors.{GoError, Result, ok, err, wrapped, is_canceled}
use clusterprobe.Messaging.Topology.{queue_high, queue_low, queue_chaos}
use clusterprobe.Worker.Startup.{Handle}

unfoldable pub queue_picker : ℕ → String
queue_picker i = if i % 2 == 0 then queue_high else queue_low

-- A consumer whose goroutine was started.
pub record Started : Type 0 where
  pub queue : String
  pub consumer : Handle

-- The end of a goroutine: the consumer and what its `Consume` returns.
pub record End : Type 0 where
  pub started : Started
  pub error : Option GoError

-- What startConsumers leaves: its error, whether it has called `onReady`, and the consumers.
pub record Pool (W : Type 0) : Type 0 where
  pub error : Option GoError
  pub ready : Bool
  pub started : List Started
  pub world : W

-- The first error that is sent on `errCh`.
unfoldable pub first_error : List End → Option GoError
first_error [] = none
first_error (end ∷ ends) = elim end.error [
  | none ↦ first_error ends
  | some e ↦
      if is_canceled e then first_error ends else some (wrapped ("consume " <> end.started.queue) e)
]

module _ {W : Type 0} (picker : ℕ → String) (factory : W → Result Handle × W)
    (finish : List Started → W → List End × W) where
  -- `<-ctx.Done()`, `wg.Wait()` and the error.
  awaited : List Started → List End × W → Pool W
  awaited started (ends, w) = record {
    error = first_error ends;
    ready = true;
    started = started;
    world = w;
  }

  after_factory : ℕ → List Started → Result Handle × W → (List Started → W → Pool W) → Pool W
  after_factory i started (err e, w) more = record {
    error = some (wrapped "create consumer" e);
    ready = false;
    started = started;
    world = w;
  }
  after_factory i started (ok h, w) more =
      more (started ++ (record { queue = picker i; consumer = h } ∷ [])) w

  -- The loop, with the consumers that are left to start and the index of the next one.
  unfoldable pub start_from : (left i : ℕ) → List Started → W → Pool W
  unfolding awaited after_factory
  start_from zero i started w = awaited started (finish started w)
  start_from (suc left) i started w = after_factory i started (factory w) (start_from left (suc i))

  unfoldable pub start_consumers : ℕ → W → Pool W
  start_consumers worker_count w = start_from worker_count 0 [] w

-- The queues of `n` consumers from index `i` on.
abbrev pub queues_from : (picker : ℕ → String) (n i : ℕ) → List String
queues_from picker zero i = []
queues_from picker (suc n) i = picker i ∷ queues_from picker n (suc i)

-- workload.high and workload.low in turn.
abbrev pub alternating : ℕ → List String
alternating zero = []
alternating (suc zero) = "workload.high" ∷ []
alternating (suc (suc n)) = "workload.high" ∷ "workload.low" ∷ alternating n

abbrev pub queues_of : List Started → List String
queues_of [] = []
queues_of (c ∷ cs) = c.queue ∷ queues_of cs

-- The pool is ready exactly if all `n` consumers were started; the consumers that were started serve
-- the queues of the first indices; and an error without readiness is one of the factory.
pub record IsPool {W : Type 0} (picker : ℕ → String) (n : ℕ) (pool : Pool W) : Type 0 where
  pub count : ℕ
  pub queues : queues_of pool.started ≡ queues_from picker count 0
  pub at_most : count ≤ n
  pub all_ready : (pool.ready ≡ true) ↔ (count ≡ n)
  pub or_refused :
      (pool.ready ≡ true) ⊎ ((e : GoError) × (pool.error ≡ some (wrapped "create consumer" e)))

queues_of-append : (cs ds : List Started) → queues_of (cs ++ ds) ≡ queues_of cs ++ queues_of ds
queues_of-append [] ds = refl
queues_of-append (c ∷ cs) ds = ap (λ qs. c.queue ∷ qs) (queues_of-append cs ds)

queues_from-suc :
    (picker : ℕ → String) (n i : ℕ)
    → queues_from picker n i ++ (picker (i + n) ∷ []) ≡ queues_from picker (suc n) i
queues_from-suc picker zero i = ap (λ k. picker k ∷ []) (omega arith)
queues_from-suc picker (suc n) i =
    let here : i + suc n ≡ suc i + n = omega arith in
    ap (λ k. picker i ∷ (queues_from picker n (suc i) ++ (picker k ∷ []))) here
    ∙ ap (λ qs. picker i ∷ qs) (queues_from-suc picker n (suc i))

module _ {W : Type 0} (picker : ℕ → String) (factory : W → Result Handle × W)
    (finish : List Started → W → List End × W) where
  after_factory-IsPool :
      (n i : ℕ) (started : List Started) (x : Result Handle × W) (more : List Started → W → Pool W)
      → i < n
      → queues_of started ≡ queues_from picker i 0
      → ((started' : List Started) (w : W)
          → queues_of started' ≡ queues_from picker (suc i) 0
          → IsPool picker n (more started' w))
      → IsPool picker n (after_factory picker factory finish i started x more)
  unfolding after_factory
  after_factory-IsPool n i started (err e, w) more k h next = record {
    count = i;
    queues = h;
    at_most = omega arith;
    all_ready = ground arith;
    or_refused = inr (e, refl);
  }
  after_factory-IsPool n i started (ok c, w) more k h next =
      let index : i ≡ 0 + i = omega arith in
      next _ w (
        queues_of-append started _
        ∙ ap (λ qs. qs ++ (picker i ∷ [])) h
        ∙ ap (λ k. queues_from picker i 0 ++ (picker k ∷ [])) index
        ∙ queues_from-suc picker i 0)

  start_from-IsPool :
      (left i n : ℕ) (started : List Started) (w : W)
      → left + i ≡ n
      → queues_of started ≡ queues_from picker i 0
      → IsPool picker n (start_from picker factory finish left i started w)
  unfolding start_from awaited
  start_from-IsPool zero i n started w k h = record {
    count = i;
    queues = h;
    at_most = omega arith;
    all_ready = ground arith;
    or_refused = inl refl;
  }
  start_from-IsPool (suc left) i n started w k h =
      after_factory-IsPool n i started (factory w) (start_from picker factory finish left (suc i))
        (omega arith) h
        (λ started' w' h'. start_from-IsPool left (suc i) n started' w' (omega arith) h')

queue_picker_even : (i : ℕ) → i % 2 ≡ 0 → queue_picker i ≡ "workload.high"
unfolding queue_picker
queue_picker_even i h = ground arith

queue_picker_odd : (i : ℕ) → i % 2 ≡ 0 → queue_picker (suc i) ≡ "workload.low"
unfolding queue_picker
queue_picker_odd i h = ground arith

queues_from-alternating : (n i : ℕ) → i % 2 ≡ 0 → queues_from queue_picker n i ≡ alternating n
queues_from-alternating zero i h = refl
queues_from-alternating (suc zero) i h = ap (λ q. q ∷ []) (queue_picker_even i h)
queues_from-alternating (suc (suc n)) i h =
    rw (queue_picker_even i h, queue_picker_odd i h)
      (ap (λ qs. "workload.high" ∷ "workload.low" ∷ qs)
        (queues_from-alternating n (suc (suc i)) (omega arith)))

queue_picker_no_chaos : (i : ℕ) → queue_picker i ≢ queue_chaos
unfolding queue_picker
queue_picker_no_chaos i = ground (
  arith,
  str_eq_iff (queue_picker i) queue_chaos,
  str_eq_iff queue_high queue_chaos,
  str_eq_iff queue_low queue_chaos,
)

pub start_consumers-IsPool :
    {W : Type 0} (factory : W → Result Handle × W) (finish : List Started → W → List End × W)
    (worker_count : ℕ) (w : W)
    → (pool : IsPool queue_picker worker_count
        (start_consumers queue_picker factory finish worker_count w))
      × (queues_of (start_consumers queue_picker factory finish worker_count w).started
          ≡ alternating pool.count)
      × ((i : ℕ) → queue_picker i ≢ queue_chaos)
unfolding start_consumers
start_consumers-IsPool factory finish worker_count w =
    let pool =
      start_from-IsPool queue_picker factory finish worker_count 0 worker_count [] w (omega arith)
        refl in
    (pool, pool.queues ∙ queues_from-alternating pool.count 0 refl, λ i. queue_picker_no_chaos i)
