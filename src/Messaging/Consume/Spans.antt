-- ===== src/Messaging/Consume/Spans.antt =====
-- The tracing spans of `Consume`.
use clusterprobe.Prelude.{ℕ, ◌+◌, Option, none, some, List, [], ◌∷◌}
use clusterprobe.Go.Errors.{GoError}
use clusterprobe.Messaging.Broker.{Event, span_start, span_end}

abbrev pub spans_started : List Event → ℕ
spans_started [] = 0
spans_started (span_start ∷ es) = 1 + spans_started es
spans_started (_ ∷ es) = spans_started es

abbrev pub spans_ended : List Event → ℕ
spans_ended [] = 0
spans_ended (span_end ∷ es) = 1 + spans_ended es
spans_ended (_ ∷ es) = spans_ended es

-- The spans that a delivery leaves open, by the handler's result and that of the `Nack`.
abbrev pub left_open : Option GoError → Option GoError → ℕ
left_open none r = 0
left_open (some e) none = 0
left_open (some e) (some f) = 1
