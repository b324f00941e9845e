-- ===== src/Retry.antt =====
-- The delays between attempts to connect, in internal/messaging/rabbitmq.go and internal/db: a delay
-- is doubled up to the first of 5 s or more. Delays are in nanoseconds.
use clusterprobe.Prelude.{ℕ, zero, suc, ◌+◌, ◌*◌, ◌<◌, ◌≡◌, arith, ltb, if◌then◌else◌}
use clusterprobe.Go.Int64.{ℤ, pos, ltb_ℤ, ◌*ℤ◌, pos-*ℤ}

-- `if backoff < 5*time.Second { backoff *= 2 }`
unfoldable pub next_backoff : ℤ → ℤ
next_backoff backoff = if ltb_ℤ backoff (pos 5000000000) then backoff *ℤ pos 2 else backoff

-- The delay after `b` ns, and the sum of the delays of `n` rounds that begin with `b` ns.
abbrev pub doubled : ℕ → ℕ
doubled b = if ltb b 5000000000 then b * 2 else b

abbrev pub budget : ℕ → ℕ → ℕ
budget zero b = 0
budget (suc n) b = b + budget n (doubled b)

pub next_backoff_nat : (b : ℕ) → b < 10000000000 → next_backoff (pos b) ≡ pos (doubled b)
unfolding next_backoff
next_backoff_nat b h = ground (arith, pos-*ℤ b 2)
