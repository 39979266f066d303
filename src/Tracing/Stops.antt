-- ===== src/Tracing/Stops.antt =====
-- How spans end: Stop, Finish and FinishWithOptions of tracing/span.go, toZipkinSpan and publish of tracing/trace.go,
-- and Record and Close of tracing/tracer.go.
-- The JSON encoder, the message queue and the text of "%v" are arguments.
use baseplate_go.Common.{
  ℕ, Bool, true, false, ◌&&◌, List, [], ◌∷◌, ◌++◌, map, Bytes, Option, none, some, String, str_eq,
  if◌then◌else◌,
}
use baseplate_go.Common.Int.{ℤ, sub_ℕ}
use baseplate_go.Std.Float64.{Float64}
use baseplate_go.Std.Instant.{Instant, is_zero}
use baseplate_go.Std.Results.{Result, ok, err}
use baseplate_go.Thriftbp.Budget.{saturated}
use baseplate_go.Tracing.{
  Trace, Span, Hooks, is_server, tag_in, is_debug_set, should_sample, run_hooks,
}
use Prim.Native.String.{◌++◌ as str_append}

pub data AnnotationValue : Type 0 where
  number : Float64 → AnnotationValue
  text : String → AnnotationValue

pub record ZipkinEndpointInfo : Type 0 where
  pub service_name : String
  pub ipv4 : String

pub record ZipkinTimeAnnotation : Type 0 where
  pub endpoint : ZipkinEndpointInfo
  pub timestamp : Instant
  pub key : String

pub record ZipkinBinaryAnnotation : Type 0 where
  pub endpoint : ZipkinEndpointInfo
  pub key : String
  pub value : AnnotationValue

pub record ZipkinSpan : Type 0 where
  pub trace_id : Bytes
  pub name : String
  pub span_id : Bytes
  pub start : Instant
  pub duration : ℤ
  pub parent_id : Bytes
  pub time_annotations : List ZipkinTimeAnnotation
  pub binary_annotations : List ZipkinBinaryAnnotation

-- The tracer, by whether its recorder is not nil, and its endpoint.
pub record Tracer : Type 0 where
  pub recording : Bool
  pub endpoint : ZipkinEndpointInfo

abbrev pub close : Tracer → Tracer
close t = record t { recording = false }

abbrev pub time_annotation : ZipkinEndpointInfo → String → Instant → List ZipkinTimeAnnotation
time_annotation e key t =
    if str_eq key "" then [] else record { endpoint = e; timestamp = t; key = key } ∷ []

abbrev pub counter_annotation : ZipkinEndpointInfo → String × Float64 → ZipkinBinaryAnnotation
counter_annotation e (key, x) = record {
  endpoint = e;
  key = str_append "counter." key;
  value = number x;
}

abbrev pub tag_annotation : ZipkinEndpointInfo → String × String → ZipkinBinaryAnnotation
tag_annotation e (key, v) = record { endpoint = e; key = key; value = text v }

abbrev pub end_of : Instant → Trace → Instant
end_of now t = if is_zero t.stop then now else t.stop

unfoldable pub to_zipkin_span : ZipkinEndpointInfo → Instant → Trace → ZipkinSpan
to_zipkin_span e now t = record {
  trace_id = t.trace_id;
  name = t.name;
  span_id = t.span_id;
  start = t.start;
  duration = saturated (sub_ℕ (end_of now t) t.start);
  parent_id = t.parent_id;
  time_annotations =
      time_annotation e t.time_annotation_receive_key t.start
      ++ time_annotation e t.time_annotation_send_key (end_of now t);
  binary_annotations = map (counter_annotation e) t.counters ++ map (tag_annotation e) t.tags;
}

-- An error that a span is stopped with, by whether it is the one of a deadline.
pub record Failure : Type 0 where
  pub deadline_exceeded : Bool
  pub cause : ℕ

abbrev pub is_deadline : Option Failure → Bool
is_deadline none = false
is_deadline (some e) = e.deadline_exceeded

abbrev pub is_failed : Option Failure → Bool
is_failed none = false
is_failed (some e) = true

abbrev pub tag_if : Bool → String → Trace → Trace
tag_if b key t = if b then tag_in key "true" t else t

abbrev pub pre_stop : Option Failure → Span → Span
pre_stop e s =
    let t = tag_if (is_server s.span_type && is_deadline e) "timed_out" s.trace in
    let u = tag_if (is_failed e) "error" t in record s { trace = tag_if (is_debug_set u) "debug" u }

abbrev pub stopped_at : Instant → Span → Span
stopped_at now s =
    if is_zero s.trace.stop then record s { trace = record s.trace { stop = now } } else s

abbrev pub finished_at : Instant → Span → Span
finished_at finish_time s =
    if is_zero finish_time then s else record s { trace = record s.trace { stop = finish_time } }

module _ (env : Hooks Failure) where
  abbrev pub with_pre_stop_hooks : Option Failure → Span → Span
  with_pre_stop_hooks e s =
      run_hooks (λ h. (env.implements h).starts_stops) (env.on_pre_stop e) s.hooks s

  -- The span when it is published.
  unfoldable pub stopped : Instant → Option Failure → Span → Span
  stopped now e s = stopped_at now (with_pre_stop_hooks e (pre_stop e s))

-- What is sent, with whether the context of the request or the background one is used; and the error.
abbrev pub Sent : Type 0 → Type 0
Sent E = List (Bool × Bytes) × Option E

-- The encoder; and the error of sending a message, by whether it is sent with the background context.
pub record Output (E : Type 0) : Type 0 where
  pub marshal : ZipkinSpan → Result E Bytes
  pub send : Bool → Bytes → Option E

module _ {E : Type 0} (out : Output E) where
  abbrev pub send_data : Bool → Result E Bytes → Sent E
  send_data is_canceled (ok data_) = ((is_canceled, data_) ∷ [], out.send is_canceled data_)
  send_data is_canceled (err e) = ([], some e)

  -- Record, by whether the context is done.
  unfoldable pub record_span : Tracer → Bool → ZipkinSpan → Sent E
  record_span t is_canceled zs =
      if t.recording then send_data is_canceled (out.marshal zs) else ([], none)

  abbrev pub publish : Tracer → Bool → Instant → Trace → Sent E
  publish t is_canceled now tr =
      if should_sample tr
      then record_span t is_canceled (to_zipkin_span t.endpoint now tr)
      else ([], none)

  module _ (env : Hooks Failure) where
    unfoldable pub stop : Tracer → Bool → Instant → Option Failure → Span → Span × Sent E
    stop t is_canceled now e s =
        let final = stopped env now e s in (final, publish t is_canceled now final.trace)

    -- FinishWithOptions, whose error is only logged; Finish is without options.
    abbrev pub finish_with_options :
        Tracer → Bool → Instant → Instant → Option Failure → Span → Span × Sent E
    finish_with_options t is_canceled now finish_time e s =
        stop t is_canceled now e (finished_at finish_time s)
