-- ===== src/Workload/Clock.antt =====
-- The loop `for time.Now().Before(deadline)` of the generators in internal/workload: it asks the
-- clock, then the context, and then runs its body, which may end the run with an error.
use clusterprobe.Prelude.{
  ℕ, zero, suc, ◌+◌, ◌≤◌, ◌<◌, ◌≡◌, ◌≢◌, arith, String, Bool, true, false, Option, none, some, ltb,
}
use clusterprobe.Go.Int64.{ℤ, pos_part, neg_part}
use clusterprobe.Go.Errors.{GoError}

-- `time.Now`, in nanoseconds, and `ctx.Err()`.
pub record Clock (W : Type 0) : Type 0 where
  pub now : W → ℕ × W
  pub context_error : W → Option GoError × W

-- What a round of the body gives: the values of its variables, and for a failure its label and error.
pub record Round (A : Type 0) : Type 0 where
  pub value : A
  pub failure : Option (String × GoError)

-- Whether the time `t` is before the deadline, `d` ns after `start`.
abbrev pub is_early : ℕ → ℤ → ℕ → Bool
is_early start d t = ltb (t + neg_part d) (start + pos_part d)

-- Rounds that are enough where every round takes 1 ns at least.
abbrev pub rounds_for : ℤ → ℕ
rounds_for d = pos_part d + 1

module _ {W A : Type 0} (clock : Clock W) (body : A → W → Round A × W) (start : ℕ) (d : ℤ) where
  after_body : Round A × W → (A → W → Option (Round A × W)) → Option (Round A × W)
  after_body (r, w) more = elim r.failure [ none ↦ more r.value w | some f ↦ some (r, w) ]

  after_context : A → Option GoError × W → (A → W → Option (Round A × W)) → Option (Round A × W)
  unfolding after_body
  after_context a (some e, w) more = some (record { value = a; failure = some ("context", e) }, w)
  after_context a (none, w) more = after_body (body a w) more

  after_reading : A → ℕ × W → (A → W → Option (Round A × W)) → Option (Round A × W)
  unfolding after_context
  after_reading a (t, w) more = elim (is_early start d t) [
    | true ↦ after_context a (clock.context_error w) more
    | false ↦ some (record { value = a; failure = none }, w)
  ]

  -- The first argument bounds the rounds; `none` means that it was too small.
  unfoldable pub until_deadline : ℕ → A → W → Option (Round A × W)
  unfolding after_reading
  until_deadline zero a w = none
  until_deadline (suc n) a w = after_reading a (clock.now w) (until_deadline n)

-- `P` holds of the variables and the world at the end of a loop, if it ends.
abbrev pub Holds {κ} : {W A : Type 0} → (A → W → Type κ) → Option (Round A × W) → Type κ
Holds P none = Unit
Holds P (some (r, w)) = P r.value w

module _ {κ} {W A : Type 0} (clock : Clock W) (body : A → W → Round A × W) (start : ℕ) (d : ℤ)
    (P : A → W → Type κ) (reads : (a : A) (w : W) → P a w → P a (clock.now w).1)
    (asks : (a : A) (w : W) → P a w → P a (clock.context_error w).1)
    (keeps : (a : A) (w : W) → P a w → P (body a w).0.value (body a w).1) where
  after_body-Holds :
      (x : Round A × W) (more : A → W → Option (Round A × W))
      → P x.0.value x.1
      → ((a : A) (w : W) → P a w → Holds P (more a w))
      → Holds P (after_body clock body start d x more)
  unfolding after_body
  after_body-Holds (r, w) more p next =
      elim r.failure
        as (λ f. Holds P (elim f as (λ f'. Option (Round A × W)) [
          | none ↦ more r.value w
          | some g ↦ some (r, w)
        ])) [ none ↦ next r.value w p | some f ↦ p ]

  after_context-Holds :
      (a : A) (x : Option GoError × W) (more : A → W → Option (Round A × W))
      → P a x.1
      → ((a : A) (w : W) → P a w → Holds P (more a w))
      → Holds P (after_context clock body start d a x more)
  unfolding after_context
  after_context-Holds a (some e, w) more p next = p
  after_context-Holds a (none, w) more p next = after_body-Holds (body a w) more (keeps a w p) next

  after_reading-Holds :
      (a : A) (x : ℕ × W) (more : A → W → Option (Round A × W))
      → P a x.1
      → ((a : A) (w : W) → P a w → Holds P (more a w))
      → Holds P (after_reading clock body start d a x more)
  unfolding after_reading
  after_reading-Holds a (t, w) more p next =
      elim (is_early start d t)
        as (λ b. Holds P (elim b as (λ b'. Option (Round A × W)) [
          | true ↦ after_context clock body start d a (clock.context_error w) more
          | false ↦ some (record { value = a; failure = none }, w)
        ])) [
          | true ↦ after_context-Holds a (clock.context_error w) more (asks a w p) next
          | false ↦ p
        ]

  -- What the body and the readings keep holds when the loop ends.
  pub until_deadline-Holds :
      (n : ℕ) (a : A) (w : W) → P a w → Holds P (until_deadline clock body start d n a w)
  unfolding until_deadline
  until_deadline-Holds zero a w p = tt
  until_deadline-Holds (suc n) a w p =
      after_reading-Holds a (clock.now w) (until_deadline clock body start d n) (reads a w p)
        (until_deadline-Holds n)

-- Time never goes back, a reading of the clock takes 1 ns at least, and it gives the time.
pub record IsTicking {W A : Type 0} (clock : Clock W) (body : A → W → Round A × W) (time : W → ℕ)
    : Type 0 where
  pub reads : (w : W) → (clock.now w).0 ≡ time w
  pub ticks : (w : W) → time w < time (clock.now w).1
  pub asks : (w : W) → time w ≤ time (clock.context_error w).1
  pub works : (a : A) (w : W) → time w ≤ time (body a w).1

module _ {W A : Type 0} {clock : Clock W} {body : A → W → Round A × W} {time : W → ℕ}
    (ticking : IsTicking clock body time) (start : ℕ) (d : ℤ) where
  -- With a round for each nanosecond that is left, and one more, the loop ends.
  pub until_deadline_ends :
      (n : ℕ) (a : A) (w : W)
      → 0 < n
      → start + pos_part d < n + time w
      → until_deadline clock body start d n a w ≢ none
  unfolding until_deadline
  until_deadline_ends zero a w k h = absurd (omega arith)
  until_deadline_ends (suc n) a w k h =
      let w1 = (clock.now w).1 in
      let w2 = (clock.context_error w1).1 in
      ground (
        arith,
        ticking.reads w,
        ticking.ticks w,
        ticking.asks w1,
        ticking.works a w2,
        until_deadline_ends n (body a w2).0.value (body a w2).1,
      )

  -- A loop that starts where the clock is read has rounds enough.
  pub until_deadline_started :
      (a : A) (w : W)
      → (clock.now w).0 ≡ start
      → until_deadline clock body start d (rounds_for d) a (clock.now w).1 ≢ none
  until_deadline_started a w h =
      until_deadline_ends (rounds_for d) a (clock.now w).1 (omega arith)
        (ground (arith, ticking.reads w, ticking.ticks w))
