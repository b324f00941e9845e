-- ===== src/Worker/Startup.antt =====
-- `newProducerWithRetry` and `newConsumerWithRetry` of cmd/worker/main.go. The clients of
-- internal/messaging and the timer are functions over an unknown world, with a trace, newest first.
use clusterprobe.Prelude.{
  ℕ, zero, suc, ◌+◌, ◌*◌, ◌≤◌, ◌≡◌, refl, arith, String, ◌<>◌, Option, none, some, List, [], ◌∷◌,
}
use clusterprobe.Go.Int64.{ℤ, pos, pos_part}
use clusterprobe.Go.Errors.{GoError, Result, ok, err, msg, wrapped}

abbrev pub Handle : Type 0
Handle = ℕ

pub record Env (W : Type 0) : Type 0 where
  -- `messaging.NewProducer` and, with its prefetch, `messaging.NewConsumer`
  pub new_producer : W → Result Handle × W
  pub new_consumer : ℤ → W → Result Handle × W
  -- the `select` on the context and a timer: the context's error, if it is done first
  pub wait : ℤ → W → Option GoError × W

pub data Event : Type 0 where
  did_try : Result Handle → Event
  did_wait : ℤ → Event

pub record State (W : Type 0) : Type 0 where
  pub world : W
  pub trace : List Event

abbrev pub startup_retry_attempts : ℕ
startup_retry_attempts = 30

abbrev pub startup_retry_backoff : ℤ
startup_retry_backoff = pos 2000000000

module _ {W : Type 0} (wait : ℤ → W → Option GoError × W) (client : String)
    (create : W → Result Handle × W) where
  after_wait :
      Option GoError × State W → (State W → Result Handle × State W) → Result Handle × State W
  after_wait (some e, s) more = (err (wrapped ("rabbitmq " <> (client <> " retry canceled")) e), s)
  after_wait (none, s) more = more s

  waited : State W → Option GoError × State W
  waited s =
      let (e, w) = wait startup_retry_backoff s.world in
      (e, record { world = w; trace = did_wait startup_retry_backoff ∷ s.trace })

  after_try :
      Result Handle × State W
      → (GoError → State W → Result Handle × State W)
      → Result Handle × State W
  unfolding after_wait waited
  after_try (ok h, s) more = (ok h, s)
  after_try (err e, s) more = after_wait (waited s) (more e)

  tried : State W → Result Handle × State W
  tried s = let (r, w) = create s.world in (r, record { world = w; trace = did_try r ∷ s.trace })

  -- The loop, with the attempts that are left and `lastErr`.
  unfoldable pub retry : ℕ → GoError → State W → Result Handle × State W
  unfolding after_try tried
  retry zero last s =
      (err (wrapped ("rabbitmq " <> (client <> " unavailable after retries")) last), s)
  retry (suc attempts) last s = after_try (tried s) (retry attempts)

module _ {W : Type 0} (env : Env W) where
  -- The first `lastErr`, which is nil, is replaced by the first attempt.
  unfoldable pub new_producer_with_retry : State W → Result Handle × State W
  new_producer_with_retry =
      retry env.wait "producer" env.new_producer startup_retry_attempts (msg "")

  unfoldable pub new_consumer_with_retry : ℤ → State W → Result Handle × State W
  new_consumer_with_retry prefetch =
      retry env.wait "consumer" (env.new_consumer prefetch) startup_retry_attempts (msg "")

abbrev pub created_in : List Event → List Handle
created_in [] = []
created_in (did_try (ok h) ∷ es) = h ∷ created_in es
created_in (did_try (err e) ∷ es) = created_in es
created_in (did_wait d ∷ es) = created_in es

abbrev pub tries_in : List Event → ℕ
tries_in [] = 0
tries_in (did_try r ∷ es) = tries_in es + 1
tries_in (did_wait d ∷ es) = tries_in es

abbrev pub waited_in : List Event → ℕ
waited_in [] = 0
waited_in (did_try r ∷ es) = waited_in es
waited_in (did_wait d ∷ es) = waited_in es + pos_part d

abbrev pub kept : Result Handle → List Handle → List Handle
kept (ok h) hs = h ∷ hs
kept (err e) hs = hs

-- What a start with at most `n` attempts has cost, and the client that is left of it.
pub record IsPatient {W : Type 0} (n : ℕ) (before : List Event) (r : Result Handle × State W)
    : Type 0 where
  pub leaves : created_in r.1.trace ≡ kept r.0 (created_in before)
  pub tries : tries_in r.1.trace ≤ n + tries_in before
  pub waits : waited_in r.1.trace ≤ n * 2000000000 + waited_in before

module _ {W : Type 0} (wait : ℤ → W → Option GoError × W) (client : String)
    (create : W → Result Handle × W) where
  after_wait-IsPatient :
      (n : ℕ) (before : List Event) (e : GoError) (c : Option GoError) (w : W)
      (more : State W → Result Handle × State W)
      → ((s : State W) → IsPatient n s.trace (more s))
      → IsPatient (suc n) before (
          after_wait wait client create
            (
              c,
              record {
                world = w;
                trace = did_wait startup_retry_backoff ∷ did_try (err e) ∷ before;
              },
            )
            more)
  unfolding after_wait
  after_wait-IsPatient n before e (some e') w more p = record {
    leaves = refl;
    tries = omega arith;
    waits = omega arith;
  }
  after_wait-IsPatient n before e none w more p =
      let later =
        p (record {
          world = w;
          trace = did_wait startup_retry_backoff ∷ did_try (err e) ∷ before;
        }) in
      record {
        leaves = later.leaves;
        tries = omega (arith, later.tries);
        waits = omega (arith, later.waits);
      }

  after_try-IsPatient :
      (n : ℕ) (before : List Event) (r : Result Handle) (w : W)
      (more : GoError → State W → Result Handle × State W)
      → ((e : GoError) (s : State W) → IsPatient n s.trace (more e s))
      → IsPatient
          (suc n)
          before
          (after_try wait client create (r, record { world = w; trace = did_try r ∷ before }) more)
  unfolding after_try
  after_try-IsPatient n before (ok h) w more p = record {
    leaves = refl;
    tries = omega arith;
    waits = omega arith;
  }
  after_try-IsPatient n before (err e) w more p = after_wait-IsPatient n before e _ _ (more e) (p e)

  retry-IsPatient :
      (n : ℕ) (last : GoError) (s : State W)
      → IsPatient n s.trace (retry wait client create n last s)
  unfolding retry
  retry-IsPatient zero last s = record { leaves = refl; tries = omega arith; waits = omega arith }
  retry-IsPatient (suc n) last s =
      after_try-IsPatient n s.trace _ _ (retry wait client create n) (retry-IsPatient n)

-- The worker tries to make its producer and each of its consumers thirty times at most, waits for 60 s
-- at most in all, and has made one client if it succeeds and none if it fails.
pub clients-IsPatient :
    {W : Type 0} (env : Env W) (prefetch : ℤ) (w : W)
    → IsPatient 30 [] (new_producer_with_retry env (record { world = w; trace = [] }))
      × IsPatient 30 [] (new_consumer_with_retry env prefetch (record { world = w; trace = [] }))
unfolding new_producer_with_retry new_consumer_with_retry
clients-IsPatient env prefetch w =
    (retry-IsPatient _ _ _ 30 (msg "") _, retry-IsPatient _ _ _ 30 (msg "") _)
