-- ===== src/Messaging/Connection/Backoff.antt =====
-- The delays of `reconnect`: it gives up after ten attempts and less than a minute of waiting.
use clusterprobe.Prelude.{ℕ, zero, suc, ◌+◌, ◌≤◌, ◌<◌, List, [], ◌∷◌, ◌≡◌, arith}
use clusterprobe.Go.Int64.{pos, pos_part}
use clusterprobe.Retry.{doubled, budget, next_backoff_nat}
use clusterprobe.Messaging.Broker.{Env, Outside, Event, did_dial, did_wait}
use clusterprobe.Messaging.Connection.{Link, connect, reconnect_from, reconnect}

-- Attempts to connect, and the time waited for, in nanoseconds.
abbrev pub attempts_in : List Event → ℕ
attempts_in [] = 0
attempts_in (did_dial r ∷ es) = 1 + attempts_in es
attempts_in (_ ∷ es) = attempts_in es

abbrev pub waited : List Event → ℕ
waited [] = 0
waited (did_wait d b ∷ es) = pos_part d + waited es
waited (_ ∷ es) = waited es

module _ {W : Type 0} (env : Env W) where
  connect-waited :
      (link : Link) (s : Outside W)
      → (attempts_in (connect env link s).1.trace ≡ attempts_in s.trace + 1)
        × (waited (connect env link s).1.trace ≡ waited s.trace)
  unfolding connect
  connect-waited link s = ground arith

  reconnect_from-waited :
      (n b : ℕ) (link : Link) (s : Outside W)
      → b < 10000000000
      → (attempts_in (reconnect_from env n (pos b) link s).1.trace ≤ attempts_in s.trace + n)
        × (waited (reconnect_from env n (pos b) link s).1.trace ≤ waited s.trace + budget n b)
  unfolding reconnect_from
  reconnect_from-waited zero b link s h = omega arith
  reconnect_from-waited (suc n) b link s h =
      let ((e, link'), s') = connect env link s in
      let (done, w) = env.wait (pos b) s'.world in
      let s2 : Outside W = record { world = w; trace = did_wait (pos b) done ∷ s'.trace } in
      ground (
        arith,
        connect-waited link s,
        next_backoff_nat b h,
        reconnect_from-waited n (doubled b) link' s2,
      )

  -- `reconnect` dials ten times at most, and waits for 55.5 s at most in all.
  pub reconnect-waited :
      (link : Link) (s : Outside W)
      → (attempts_in (reconnect env link s).1.trace ≤ attempts_in s.trace + 10)
        × (waited (reconnect env link s).1.trace ≤ waited s.trace + 55500000000)
  unfolding reconnect
  reconnect-waited link s = reconnect_from-waited 10 500000000 link s (omega arith)
