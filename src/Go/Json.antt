-- ===== src/Go/Json.antt =====
-- Documents as `encoding/json` reads and writes them. A payload is taken for what decoding it gives,
-- so a document that is written and read back is the same; text that does not decode is kept with
-- the decoder's message. Writing fails only on a time whose year is not below 10000.
use clusterprobe.Prelude.{ℕ, String, ltb, if◌then◌else◌}
use clusterprobe.Go.Errors.{msg, Result, ok, err}

pub data Payload (A : Type 0) : Type 0 where
  document : A → Payload A
  malformed : String → Payload A

-- `json.Unmarshal`.
abbrev pub decode : {A : Type 0} → Payload A → Result A
decode (document a) = ok a
decode (malformed text) = err (msg text)

-- The first instant of the year 10000, in nanoseconds since the zero time.
abbrev pub year_10000 : ℕ
year_10000 = 315537897600000000000

-- `json.Marshal` of a document that holds the time `t`.
abbrev pub encode : {A : Type 0} → ℕ → A → Result (Payload A)
encode t a =
    if ltb t year_10000
    then ok (document a)
    else err (
        msg
          "json: error calling MarshalJSON for type time.Time: Time.MarshalJSON: year outside of range [0,9999]")
