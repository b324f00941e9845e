-- ===== src/Go/Errors.antt =====
-- Go's `error` values as the source builds and inspects them: `errors.New`/`fmt.Errorf` texts,
-- `%w` wrapping, `context` sentinels and `messaging.UnrecoverableError`.
use clusterprobe.Prelude.{String, ◌<>◌, Bool, true, false, Option, none, some}

pub data GoError : Type 0 where
  -- an error that is only a text
  msg : String → GoError
  -- fmt.Errorf("label: %w", err)
  wrapped : String → GoError → GoError
  -- messaging.UnrecoverableError{Err: err}
  unrecoverable : GoError → GoError
  -- context.Canceled and context.DeadlineExceeded
  canceled deadline_exceeded : GoError
  -- amqp.ErrClosed of the AMQP library
  amqp_closed : GoError

-- `err.Error()`.
unfoldable pub error_text : GoError → String
error_text (msg s) = s
error_text (wrapped label e) = label <> ": " <> error_text e
error_text (unrecoverable e) = error_text e
error_text canceled = "context canceled"
error_text deadline_exceeded = "context deadline exceeded"
error_text amqp_closed = "Exception (504) Reason: \"channel/connection is not open\""

-- `errors.Is(err, context.Canceled)`.
unfoldable pub is_canceled : GoError → Bool
is_canceled (msg s) = false
is_canceled (wrapped label e) = is_canceled e
is_canceled (unrecoverable e) = is_canceled e
is_canceled canceled = true
is_canceled deadline_exceeded = false
is_canceled amqp_closed = false

-- `errors.Is(err, context.DeadlineExceeded)`.
unfoldable pub is_deadline_exceeded : GoError → Bool
is_deadline_exceeded (msg s) = false
is_deadline_exceeded (wrapped label e) = is_deadline_exceeded e
is_deadline_exceeded (unrecoverable e) = is_deadline_exceeded e
is_deadline_exceeded canceled = false
is_deadline_exceeded deadline_exceeded = true
is_deadline_exceeded amqp_closed = false

-- `errors.Is(err, amqp.ErrClosed)`.
unfoldable pub is_amqp_closed : GoError → Bool
is_amqp_closed (msg s) = false
is_amqp_closed (wrapped label e) = is_amqp_closed e
is_amqp_closed (unrecoverable e) = is_amqp_closed e
is_amqp_closed canceled = false
is_amqp_closed deadline_exceeded = false
is_amqp_closed amqp_closed = true

-- `errors.As(err, &unrecoverable)` with a target of type `UnrecoverableError`.
unfoldable pub as_unrecoverable : GoError → Bool
as_unrecoverable (msg s) = false
as_unrecoverable (wrapped label e) = as_unrecoverable e
as_unrecoverable (unrecoverable e) = true
as_unrecoverable canceled = false
as_unrecoverable deadline_exceeded = false
as_unrecoverable amqp_closed = false

-- A pair of a value and an error, of which the caller uses the value only if the error is nil.
pub data Result {ℓ} (A : Type ℓ) : Type ℓ where
  ok : A → Result A
  err : GoError → Result A

-- `x, err := r; if err != nil { return …, err }` and what follows.
infixl 5 ◌>>=◌ ◌>>◌
abbrev pub ◌>>=◌ {ℓ κ} : {A : Type ℓ} {B : Type κ} → Result A → (A → Result B) → Result B
r >>= k = elim r [ err e ↦ err e | ok x ↦ k x ]

abbrev pub ◌>>◌ {κ} : {B : Type κ} → Result (Unit {0}) → Result B → Result B
err e >> r = err e
ok _ >> r = r

-- `if cond { return …, err }`.
abbrev pub fail_if : Bool → GoError → Result (Unit {0})
fail_if true e = err e
fail_if false e = ok tt

-- `fmt.Errorf("label: %w", err)` around a failing call.
abbrev pub context {ℓ} : {A : Type ℓ} → String → Result A → Result A
context label (ok a) = ok a
context label (err e) = err (wrapped label e)

-- A call that returns only an error, `none` for nil.
abbrev pub of_error : Option GoError → Result (Unit {0})
of_error none = ok tt
of_error (some e) = err e
