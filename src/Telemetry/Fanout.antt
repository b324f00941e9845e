-- ===== src/Telemetry/Fanout.antt =====
-- `fanoutHandler` and `injectTraceID` of internal/telemetry/otel.go.
use clusterprobe.Prelude.{
  String, Bool, ◌||◌, Option, none, some, List, [], ◌∷◌, ◌++◌, ◌≡◌, ◌⊎◌, inl, inr, refl, arith,
}
use clusterprobe.Go.Int64.{ℤ}
use clusterprobe.Go.Errors.{GoError, wrapped}

-- The two handlers.
pub data Sink : Type 0 where
  json otel : Sink

-- `WithAttrs` and `WithGroup`
pub data Derivation : Type 0 where
  attrs : List (String × String) → Derivation
  group : String → Derivation

-- A `slog.Record`.
pub record LogRecord : Type 0 where
  pub level : ℤ
  pub message : String
  pub attributes : List (String × String)

-- The span of a context.
pub data Span : Type 0 where
  no_span invalid_span : Span
  valid_span : (trace_id : String) → Span

-- A handler of the libraries with what was derived from it, the latest derivation first.
pub record Env (W : Type 0) : Type 0 where
  pub enabled : Sink → List Derivation → ℤ → Bool
  pub handle : Sink → List Derivation → LogRecord → W → Option GoError × W

-- `fanoutHandler`
pub record FanoutHandler : Type 0 where
  pub json_handler : List Derivation
  pub otel_handler : List Derivation

pub data Event : Type 0 where
  did_handle : Sink → List Derivation → LogRecord → Option GoError → Event

pub record State (W : Type 0) : Type 0 where
  pub world : W
  pub trace : List Event

unfoldable pub inject_trace_id : Span → LogRecord → LogRecord
inject_trace_id no_span r = r
inject_trace_id invalid_span r = r
inject_trace_id (valid_span id) r = record r { attributes = r.attributes ++ ("trace_id", id) ∷ [] }

unfoldable pub with_attrs : List (String × String) → FanoutHandler → FanoutHandler
with_attrs given h = record {
  json_handler = attrs given ∷ h.json_handler;
  otel_handler = attrs given ∷ h.otel_handler;
}

unfoldable pub with_group : String → FanoutHandler → FanoutHandler
with_group name h = record {
  json_handler = group name ∷ h.json_handler;
  otel_handler = group name ∷ h.otel_handler;
}

module _ {W : Type 0} (env : Env W) where
  unfoldable pub enabled : FanoutHandler → ℤ → Bool
  enabled h level = env.enabled json h.json_handler level || env.enabled otel h.otel_handler level

  abbrev to_sink : Sink → List Derivation → LogRecord → State W → Option GoError × State W
  to_sink sink ds r s =
      let (e, w) = env.handle sink ds r s.world in
      (e, record { world = w; trace = did_handle sink ds r e ∷ s.trace })

  abbrev labelled : String → Option GoError × State W → Option GoError × State W
  labelled label (none, s) = (none, s)
  labelled label (some e, s) = (some (wrapped label e), s)

  abbrev then_otel :
      Option GoError × State W → List Derivation → LogRecord → Option GoError × State W
  then_otel (some e, s) ds r = (some e, s)
  then_otel (none, s) ds r = labelled "otel handler" (to_sink otel ds r s)

  unfoldable pub handle : FanoutHandler → Span → LogRecord → State W → Option GoError × State W
  handle h span r s =
      let r' = inject_trace_id span r in
      then_otel (labelled "json handler" (to_sink json h.json_handler r' s)) h.otel_handler r'

-- A handler derived from the two of `Init`, the latest derivation first.
abbrev pub derived : List Derivation → FanoutHandler
derived [] = record { json_handler = []; otel_handler = [] }
derived (attrs given ∷ ds) = with_attrs given (derived ds)
derived (group name ∷ ds) = with_group name (derived ds)

-- What a handler with the derivations `ds` does with a record: both of its handlers get it, and none
-- of them fails; or the JSON handler fails and the other gets nothing; or the other one fails.
abbrev pub Handles : List Derivation → LogRecord → Option GoError → List Event → Type 0
Handles ds r none trace = trace ≡ did_handle otel ds r none ∷ did_handle json ds r none ∷ []
Handles ds r (some e) trace =
    (cause : GoError) × (((e ≡ wrapped "json handler" cause)
        × (trace ≡ did_handle json ds r (some cause) ∷ []))
      ⊎ ((e ≡ wrapped "otel handler" cause)
          × (trace ≡ did_handle otel ds r (some cause) ∷ did_handle json ds r none ∷ [])))

derived_both :
    (ds : List Derivation) → ((derived ds).json_handler ≡ ds) × ((derived ds).otel_handler ≡ ds)
unfolding with_attrs with_group
derived_both [] = (refl, refl)
derived_both (attrs given ∷ ds) = ground (arith, derived_both ds)
derived_both (group name ∷ ds) = ground (arith, derived_both ds)

module _ {W : Type 0} (env : Env W) (ds : List Derivation) (r : LogRecord) where
  otel-Handles :
      (y : Option GoError × W)
      → let (e, s) = labelled env "otel handler" (
        y.0,
        record { world = y.1; trace = did_handle otel ds r y.0 ∷ did_handle json ds r none ∷ [] },
      ) in
        Handles ds r e s.trace
  otel-Handles (none, w) = refl
  otel-Handles (some e, w) = (e, inr (refl, refl))

  json-Handles :
      (x : Option GoError × W)
      → let (e, s) =
          then_otel env
            (labelled env "json handler"
              (x.0, record { world = x.1; trace = did_handle json ds r x.0 ∷ [] }))
            ds
            r in
        Handles ds r e s.trace
  json-Handles (none, w) = otel-Handles (env.handle otel ds r w)
  json-Handles (some e, w) = (e, inl (refl, refl))

-- However a logger was derived and whatever span the record stands in: its record goes to the JSON
-- handler and then, unless that one fails, to the OpenTelemetry handler, the same record with the
-- same derivations, and a failure is reported with the name of the handler that failed.
pub handle-Handles :
    {W : Type 0} (env : Env W) (ds : List Derivation) (span : Span) (r : LogRecord) (w : W)
    → let (e, s) = handle env (derived ds) span r (record { world = w; trace = [] }) in
      Handles ds (inject_trace_id span r) e s.trace
unfolding handle
handle-Handles env ds span r w =
    let (a, b) = derived_both ds in
    rw (a, b)
      (json-Handles env ds (inject_trace_id span r) (env.handle json ds (inject_trace_id span r) w))
