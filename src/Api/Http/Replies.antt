-- ===== src/Api/Http/Replies.antt =====
-- The status of a reply.
use clusterprobe.Prelude.{ℕ, some, ◌≡◌, arith}
use clusterprobe.Api.Http.{Connection, Outcome, fails, goes, finish}

-- The status that a handler's work decides on.
abbrev pub code_of : {A : Type 0} → Outcome (ℕ × A) → ℕ
code_of (fails code text) = code
code_of (goes (code, a)) = code

-- The client gets the status that the handler's work decides on, also where the body cannot be
-- encoded or sent and an error is reported after it.
pub finish-code_of :
    {A : Type 0} (conn : Connection A) (o : Outcome (ℕ × A))
    → (finish conn o).status ≡ some (code_of o)
unfolding finish
finish-code_of conn (fails code text) = ground arith
finish-code_of conn (goes (code, a)) = ground arith
