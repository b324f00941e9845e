-- ===== src/Ui/LogStream.antt =====
-- `LogsStream` and `writeLogStreamError` of cmd/ui/handlers/logs.go: the stream of the API, handed on
-- to the browser. Headers, spans and log lines are left out.
use clusterprobe.Prelude.{
  ℕ, ◌≡◌, refl, ap, arith, String, ◌<>◌, Bool, true, false, List, [], ◌∷◌, ◌++◌, if◌then◌else◌,
  Each,
}
use clusterprobe.Go.Errors.{Result, ok, err}
use clusterprobe.Go.Strings.{codes}
use clusterprobe.Api.Logging.{Op, write_header, write, flush}
use clusterprobe.Ui.Client.{Response, State, Transport, logs_stream, close_body, stream_of}

-- One turn of the loop: what `Read` gives, whether with an error or the end, and whether the browser
-- takes it.
pub record Turn : Type 0 where
  pub bytes : List ℕ
  pub ends : Bool
  pub accepted : Bool

abbrev unless_ended : Bool → List (Op (List ℕ)) → List (Op (List ℕ))
unless_ended true rest = []
unless_ended false rest = rest

-- The loop. Where the turns end, it waits.
unfoldable pub copy_turns : List Turn → List (Op (List ℕ))
copy_turns [] = []
copy_turns (t ∷ turns) =
    let rest = unless_ended t.ends (copy_turns turns) in
    elim t.bytes [
      | [] ↦ rest
      | b ∷ bs ↦ if t.accepted then write (b ∷ bs) ∷ flush ∷ rest else write (b ∷ bs) ∷ []
    ]

unfoldable pub write_log_stream_error : (can_flush : Bool) → String → List (Op (List ℕ))
write_log_stream_error can_flush message =
    write (codes ("event: logs\ndata: " <> (message <> "\n\n")))
    ∷ (if can_flush then flush ∷ [] else [])

module _ {W B : Type 0} (transport : Transport W B) (base_url : String) (can_flush : Bool)
    (turns : B → List Turn) where
  -- With the deferred `Close` of the stream's body.
  abbrev handed_on : Result B × State W → List (Op (List ℕ)) × State W
  handed_on (err e, s) = (
    write_log_stream_error can_flush "Log stream unavailable. Check API log stream connectivity.",
    s,
  )
  handed_on (ok body, s) = (
    if can_flush
        then copy_turns (turns body)
        else write_header 500 ∷ write (codes "streaming unsupported\n") ∷ [],
    close_body transport base_url s,
  )

  -- The handler: what it does with its writer, and the open bodies after it.
  unfoldable pub hand_on_logs : State W → List (Op (List ℕ)) × State W
  hand_on_logs s = handed_on (logs_stream transport base_url s)

  stream_of_closes :
      (x : Result (Response B) × W) (n : ℕ)
      → (handed_on (stream_of transport base_url x n)).1.open_bodies ≡ n
  unfolding stream_of close_body
  stream_of_closes (err e, w) n = refl
  stream_of_closes (ok r, w) n = ground arith

  -- However the API and the browser behave, the handler leaves no body open.
  pub hand_on_logs_closes : (s : State W) → (hand_on_logs s).1.open_bodies ≡ s.open_bodies
  unfolding hand_on_logs logs_stream close_body
  hand_on_logs_closes s = ground (arith, stream_of_closes (transport.send _ s.world) s.open_bodies)

-- The bytes that the calls write.
abbrev pub written : List (Op (List ℕ)) → List ℕ
written [] = []
written (write bs ∷ ops) = bs ++ written ops
written (_ ∷ ops) = written ops

-- The bytes that are read, those with the end included.
abbrev pub read_bytes : List Turn → List ℕ
read_bytes [] = []
read_bytes (t ∷ turns) = t.bytes ++ (if t.ends then [] else read_bytes turns)

written_rest :
    (ends : Bool) (ops : List (Op (List ℕ))) (bs : List ℕ)
    → written ops ≡ bs
    → written (unless_ended ends ops) ≡ (if ends then [] else bs)
written_rest true ops bs h = refl
written_rest false ops bs h = h

written_turn :
    (bs : List ℕ) (ends a : Bool) (turns : List Turn)
    → a ≡ true
    → written (copy_turns turns) ≡ read_bytes turns
    → written (copy_turns (record { bytes = bs; ends = ends; accepted = a } ∷ turns))
      ≡ read_bytes (record { bytes = bs; ends = ends; accepted = a } ∷ turns)
unfolding copy_turns
written_turn [] ends a turns took h = written_rest ends (copy_turns turns) (read_bytes turns) h
written_turn (b ∷ bs) ends false turns took h = absurd (ground arith)
written_turn (b ∷ bs) ends true turns took h =
    ap (λ rest. b ∷ (bs ++ rest)) (written_rest ends (copy_turns turns) (read_bytes turns) h)

-- If the browser takes everything, then all that is read from the API is written, in its order, up to
-- the end of the stream and with the bytes that come with the end.
pub written-copy_turns :
    (turns : List Turn)
    → Each (λ t. t.accepted ≡ true) turns
    → written (copy_turns turns) ≡ read_bytes turns
unfolding copy_turns
written-copy_turns [] all = refl
written-copy_turns (t ∷ turns) all =
    written_turn t.bytes t.ends t.accepted turns all.0 (written-copy_turns turns all.1)
