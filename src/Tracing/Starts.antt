-- ===== src/Tracing/Starts.antt =====
-- How spans start: StartSpan of tracing/tracer.go, and initChildSpan, StartSpanFromHeaders and the headers of
-- tracing/span.go.
use baseplate_go.Common.{
  ℕ, zero, suc, ◌+◌, ◌/◌, ◌%◌, Bool, true, false, not, ◌||◌, List, [], ◌∷◌, length, Bytes, is_empty,
  Option, none, some, String, ltb, if◌then◌else◌,
}
use baseplate_go.Common.Int.{ℤ}
use baseplate_go.Std.Float64.{Float64}
use baseplate_go.Std.Instant.{Instant, is_zero}
use baseplate_go.Std.Decimal.{parse_int}
use baseplate_go.Randbp.{should_sample_with_rate}
use baseplate_go.Tracing.{
  SpanType, Trace, Span, Hooks, is_server, server_span, new_span, on_start, set_tag, run_hooks,
}

-- strconv.FormatUint(id, 16) in 16 places, with the leading zeros of "%016x".
abbrev pub hex_digit : ℕ → ℕ
hex_digit d = if ltb d 10 then d + 48 else d + 87

abbrev pub hex_digits : ℕ → ℕ → Bytes → Bytes
hex_digits zero n below = below
hex_digits (suc places) n below = hex_digits places (n / 16) (hex_digit (n % 16) ∷ below)

abbrev pub hex_id_64 : ℕ → Bytes
hex_id_64 n = hex_digits 16 n []

-- nonZeroRandUint64, on what the generator draws; none while it still draws.
unfoldable pub non_zero : List ℕ → Option ℕ
non_zero [] = none
non_zero (zero ∷ drawn) = non_zero drawn
non_zero (suc n ∷ drawn) = some (suc n)

pub record Headers : Type 0 where
  pub trace_id : Bytes
  pub span_id : Bytes
  pub flags : Bytes
  pub sampled : Option Bool

abbrev pub is_set : Option Bool → Bool
is_set none = false
is_set (some b) = true

abbrev pub any_set : Headers → Bool
any_set h =
    not (is_empty h.trace_id)
    || (not (is_empty h.span_id) || (not (is_empty h.flags) || is_set h.sampled))

-- ParseTraceID and ParseSpanID
abbrev pub max_id_length : ℕ
max_id_length = 1024

abbrev pub parse_id : Bytes → Option Bytes
parse_id id = if is_empty id then none else if ltb max_id_length (length id) then none else some id

abbrev pub parse_flags : Bytes → Option ℤ
parse_flags flags = if is_empty flags then none else parse_int flags

abbrev pub or_else {ℓ} : {A : Type ℓ} → A → Option A → A
or_else a none = a
or_else a (some b) = b

-- What StartSpanFromHeaders sets in the new trace.
abbrev pub from_headers : Headers → Trace → Trace
from_headers h t = record t {
  trace_id = or_else t.trace_id (parse_id h.trace_id);
  parent_id = or_else t.parent_id (parse_id h.span_id);
  flags = or_else t.flags (parse_flags h.flags);
  sampled = or_else t.sampled h.sampled;
}

-- The references of a new span: a span of this package is one of type *Span.
pub data Reference : Type 0 where
  child_of : Option Span → Reference
  follows_from : Reference

unfoldable pub find_first_parent_reference : List Reference → Option Span
find_first_parent_reference [] = none
find_first_parent_reference (child_of none ∷ refs) = find_first_parent_reference refs
find_first_parent_reference (child_of (some s) ∷ refs) = some s
find_first_parent_reference (follows_from ∷ refs) = find_first_parent_reference refs

-- The arguments of StartSpan, the clock, the ids that the generators give in their order, and the draw of R.
pub record Starting : Type 0 where
  pub operation_name : String
  pub span_type : SpanType
  pub references : List Reference
  pub start_time : Instant
  pub tags : List (String × String)
  pub now : Instant
  pub trace_id : Bytes
  pub span_id : Bytes
  pub root_trace_id : Bytes
  pub drawn : Float64

abbrev pub of_headers : Headers → Starting → Span
of_headers h a =
    let s = new_span a.operation_name server_span a.trace_id a.span_id a.now in
    record s { trace = from_headers h s.trace }

abbrev pub inherit : Span → Span → Span
inherit s child = record child {
  trace = record child.trace {
    parent_id = s.trace.span_id;
    trace_id = s.trace.trace_id;
    sampled = s.trace.sampled;
    flags = s.trace.flags;
  };
}

abbrev pub started_at : Instant → Span → Span
started_at start_time s =
    if is_zero start_time then s else record s { trace = record s.trace { start = start_time } }

abbrev pub new_of : Starting → Span
new_of a =
    started_at a.start_time (new_span a.operation_name a.span_type a.trace_id a.span_id a.now)

abbrev pub as_root : Bytes → Bool → Span → Span
as_root trace_id sampled s = record s {
  trace = record s.trace { trace_id = trace_id; sampled = sampled };
}

module _ {Err : Type 0} (env : Hooks Err) where
  -- onCreateServerSpan
  abbrev pub on_create_server_span : Span → Span
  on_create_server_span s =
      if is_server s.span_type
      then run_hooks (λ h. true) env.on_create_server env.create_server s
      else s

  unfoldable pub run_create_hooks : List ℕ → Span → Span → Span × Span
  run_create_hooks [] parent child = (parent, child)
  run_create_hooks (h ∷ hs) parent child =
      let r =
        if (env.implements h).creates_child
        then env.on_create_child h parent child
        else (parent, child) in
      run_create_hooks hs r.0 r.1

  -- The hooks get a copy of the parent, which shares its trace: only that is kept of what they do to it.
  abbrev pub hooked : Span → Span × Span → Span × Span
  hooked s (parent, child) = (record s { trace = parent.trace }, on_start env child)

  -- initChildSpan: the parent and the child after it.
  abbrev pub init_child_span : Span → Span → Span × Span
  init_child_span s child =
      let c = inherit s child in
      if is_server child.span_type then (s, c) else hooked s (run_create_hooks s.hooks s c)

  unfoldable pub set_tags : List (String × String) → Span → Span
  set_tags [] s = s
  set_tags ((key, value) ∷ tags) s = set_tags tags (set_tag env key value s)

  abbrev pub server_start : Span → Span
  server_start s = if is_server s.span_type then on_start env (on_create_server_span s) else s

  -- StartSpan with the parent that its references have, or without: the parent after it, and the new span.
  unfoldable pub start_child : Starting → Span → Span × Span
  start_child a parent =
      let r = init_child_span parent (new_of a) in (r.0, set_tags a.tags (server_start r.1))

  unfoldable pub start_root : Float64 → Starting → Span
  start_root rate a =
      set_tags a.tags
        (server_start (as_root a.root_trace_id (should_sample_with_rate a.drawn rate) (new_of a)))

  abbrev pub with_parent : Float64 → Starting → Option Span → Option Span × Span
  with_parent rate a none = (none, start_root rate a)
  with_parent rate a (some p) = let r = start_child a p in (some r.0, r.1)

  abbrev pub start_span : Float64 → Starting → Option Span × Span
  start_span rate a = with_parent rate a (find_first_parent_reference a.references)

  -- StartSpanFromHeaders; StartTopLevelServerSpan starts the span that the context's span, if any, is the
  -- parent of.
  unfoldable pub start_from : Headers → Starting → Span
  start_from h a = on_start env (on_create_server_span (of_headers h a))

  abbrev pub start_span_from_headers : Float64 → Headers → Starting → Option Span × Span
  start_span_from_headers rate h a =
      if any_set h
      then (none, start_from h a)
      else start_span rate (record a { span_type = server_span })
