-- ===== src/Api/Http.antt =====
-- cmd/api/handlers/helpers.go, and what the handlers use of net/http: a reply takes the first status
-- that is written and collects the bodies; a handler goes on or ends with a status and a message.
pub mod Replies
use clusterprobe.Prelude.{
  ℕ, String, Bool, true, false, Option, none, some, List, [], ◌∷◌, if◌then◌else◌, ◌≡◌, ◌≢◌, refl,
  arith, ltb,
}
use clusterprobe.Go.Errors.{GoError, Result, ok, err, msg, wrapped, error_text}
use clusterprobe.Go.Json.{Payload, decode}

-- What is written on a connection, newest body first.
pub record Reply (B : Type 0) : Type 0 where
  pub status : Option ℕ
  pub bodies : List B

abbrev pub no_reply : {B : Type 0} → Reply B
no_reply = record { status = none; bodies = [] }

-- A body is a JSON document: the error document, or one of the handler's.
pub data Body (A : Type 0) : Type 0 where
  error_body : String → Body A
  value : A → Body A

-- `WriteHeader`: only the first status counts.
abbrev first_status : Option ℕ → ℕ → Option ℕ
first_status none code = some code
first_status (some old) code = some old

unfoldable pub write_header : {B : Type 0} → ℕ → Reply B → Reply B
write_header code r = record r { status = first_status r.status code }

-- Documents that the encoder accepts, and the connection, which may fail to take a body.
pub record Connection (A : Type 0) : Type 0 where
  pub encodes : A → Option GoError
  pub accepts : Body A → Option GoError

module _ {A : Type 0} (conn : Connection A) where
  abbrev encoding_error : Body A → Option GoError
  encoding_error (error_body text) = none
  encoding_error (value a) = conn.encodes a

  abbrev send :
      Option GoError → Option GoError → Body A → Reply (Body A) → Option GoError × Reply (Body A)
  send (some e) sent b r = (some (wrapped "encode json" e), r)
  send none (some e) b r = (some (wrapped "encode json" e), r)
  send none none b r = (none, record r { bodies = b ∷ r.bodies })

  -- `writeJSON`
  unfoldable pub write_json : ℕ → Body A → Reply (Body A) → Option GoError × Reply (Body A)
  unfolding write_header
  write_json code b r = send (encoding_error b) (conn.accepts b) b (write_header code r)

  -- `errorResponse`
  unfoldable pub error_response : ℕ → String → Reply (Body A) → Reply (Body A)
  unfolding write_json
  error_response code text r = (write_json code (error_body text) r).1

  abbrev after_write : Option GoError × Reply (Body A) → Reply (Body A)
  after_write (none, r) = r
  after_write (some e, r) = error_response 500 (error_text e) r

  -- `if err := writeJSON(w, status, payload); err != nil { errorResponse(w, 500, err.Error()) }`
  unfoldable pub write_or_report : ℕ → A → Reply (Body A) → Reply (Body A)
  unfolding write_json error_response
  write_or_report code a r = after_write (write_json code (value a) r)

-- A handler's work up to its reply: it ends early with a status and an error message, or goes on.
pub data Outcome (A : Type 0) : Type 0 where
  fails : ℕ → String → Outcome A
  goes : A → Outcome A

abbrev pub Handler : Type 0 → Type 0 → Type 0
Handler S A = S → Outcome A × S

abbrev explained : {A : Type 0} → ℕ → Result A → Outcome A
explained code (ok a) = goes a
explained code (err e) = fails code (error_text e)

module _ {S : Type 0} where
  infixl 5 ◌>>=◌ ◌>>◌
  abbrev go_on : {A B : Type 0} → Outcome A × S → (A → Handler S B) → Outcome B × S
  go_on (fails code text, s) k = (fails code text, s)
  go_on (goes a, s) k = k a s

  abbrev pub ◌>>=◌ : {A B : Type 0} → Handler S A → (A → Handler S B) → Handler S B
  ◌>>=◌ m k s = go_on (m s) k

  abbrev pub ◌>>◌ : {B : Type 0} → Handler S (Unit {0}) → Handler S B → Handler S B
  ◌>>◌ m k s = go_on (m s) (λ _. k)

  abbrev pub reply : {A : Type 0} → A → Handler S A
  reply a s = (goes a, s)

  abbrev pub fail : {A : Type 0} → ℕ → String → Handler S A
  fail code text s = (fails code text, s)

  abbrev guarded : {A : Type 0} → ℕ → String → Result A × S → Outcome A × S
  guarded code text (ok a, s) = (goes a, s)
  guarded code text (err e, s) = (fails code text, s)

  -- `if err != nil { errorResponse(w, code, text); return }`
  abbrev pub or_fail : {A : Type 0} → ℕ → String → (S → Result A × S) → Handler S A
  or_fail code text m s = guarded code text (m s)

  -- `if err != nil { errorResponse(w, code, err.Error()); return }`
  abbrev pub or_explain : {A : Type 0} → ℕ → Result A → Handler S A
  or_explain code r s = (explained code r, s)

-- `decodeJSON`, on a request body given by what its decoding gives.
unfoldable pub decode_json : {A : Type 0} → Payload A → Result A
decode_json (Payload.document a) = ok a
decode_json (Payload.malformed text) = err (wrapped "decode json" (msg text))

-- A handler's reply from its work.
unfoldable pub finish : {A : Type 0} → Connection A → Outcome (ℕ × A) → Reply (Body A)
unfolding error_response write_or_report
finish conn (fails code text) = error_response conn code text no_reply
finish conn (goes (code, a)) = write_or_report conn code a no_reply
