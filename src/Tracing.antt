-- ===== src/Tracing.antt =====
-- tracing: the spans of trace.go, span.go, hooks.go and tags.go.
-- A hook is a number; what it implements and what it does to a span is an argument (`Hooks`), and its errors are
-- only logged. The value of a tag comes as the text that "%v" prints. A hook that acts on another span than
-- those that it is given is left out.
pub mod Starts
pub mod Stops
pub mod Identity
pub mod Traces
mod Tests
use baseplate_go.Common.{
  ℕ, suc, ◌+◌, ◌%◌, Bool, true, false, not, ◌||◌, List, [], ◌∷◌, ◌++◌, map, Bytes, codes, Option,
  none, some, String, str_eq, Map, lookup, insert, has, ◌==◌, if◌then◌else◌,
}
use baseplate_go.Common.Int.{ℤ, pos, negsuc, ◌+ℤ◌, ◌-ℤ◌}
use baseplate_go.Std.Float64.{Float64, finite, add}
use baseplate_go.Std.Instant.{Instant}

pub data SpanType : Type 0 where
  local_span : SpanType
  client_span : SpanType
  server_span : SpanType
  other_span : SpanType

abbrev pub is_server : SpanType → Bool
is_server local_span = false
is_server client_span = false
is_server server_span = true
is_server other_span = false

-- `trace`, without its pointer to the tracer.
pub record Trace : Type 0 where
  pub name : String
  pub trace_id : Bytes
  pub span_id : Bytes
  pub parent_id : Bytes
  pub sampled : Bool
  pub flags : ℤ
  pub time_annotation_receive_key : String
  pub time_annotation_send_key : String
  pub start : Instant
  pub stop : Instant
  pub counters : Map Float64
  pub tags : Map String

pub record Span : Type 0 where
  pub trace : Trace
  pub hooks : List ℕ
  pub span_type : SpanType

-- The ids come from the tracer's generators.
abbrev pub new_trace : String → Bytes → Bytes → Instant → Trace
new_trace name trace_id span_id now = record {
  name = name;
  trace_id = trace_id;
  span_id = span_id;
  parent_id = [];
  sampled = false;
  flags = pos 0;
  time_annotation_receive_key = "";
  time_annotation_send_key = "";
  start = now;
  stop = 0;
  counters = [];
  tags = ("component", "baseplate") ∷ [];
}

abbrev pub receive_key : SpanType → String
receive_key server_span = "sr"
receive_key client_span = "cr"
receive_key local_span = ""
receive_key other_span = ""

abbrev pub send_key : SpanType → String
send_key server_span = "ss"
send_key client_span = "cs"
send_key local_span = ""
send_key other_span = ""

abbrev pub new_span : String → SpanType → Bytes → Bytes → Instant → Span
new_span name kind trace_id span_id now = record {
  trace = record (new_trace name trace_id span_id now) {
    time_annotation_receive_key = receive_key kind;
    time_annotation_send_key = send_key kind;
  };
  hooks = [];
  span_type = kind;
}

abbrev pub counter_of : Option Float64 → Float64
counter_of none = finite (pos 0)
counter_of (some x) = x

abbrev pub count_in : String → Float64 → Trace → Trace
count_in key delta t = record t {
  counters = insert key (add (counter_of (lookup key t.counters)) delta) t.counters;
}

abbrev pub tag_in : String → String → Trace → Trace
tag_in key value t = record t { tags = insert key value t.tags }

-- The lowest bit of the two's complement, which FlagMaskDebug selects.
abbrev pub is_odd : ℤ → Bool
is_odd (pos n) = n % 2 == 1
is_odd (negsuc n) = suc n % 2 == 1

abbrev pub is_debug_set : Trace → Bool
is_debug_set t = is_odd t.flags

-- flags |= FlagMaskDebug and flags &= ^FlagMaskDebug
abbrev pub with_debug : Bool → ℤ → ℤ
with_debug true flags = if is_odd flags then flags else flags +ℤ pos 1
with_debug false flags = if is_odd flags then flags -ℤ pos 1 else flags

abbrev pub should_sample : Trace → Bool
should_sample t = t.sampled || is_debug_set t

-- Which of the span hook interfaces a hook has.
pub record Interfaces : Type 0 where
  pub creates_child : Bool
  pub starts_stops : Bool
  pub sets_tag : Bool
  pub adds_counter : Bool

-- The hooks of the program, by what they do to the spans they get; `create_server` are the registered ones.
pub record Hooks (Err : Type 0) : Type 0 where
  pub implements : ℕ → Interfaces
  pub create_server : List ℕ
  pub on_create_server : ℕ → Span → Span
  pub on_create_child : ℕ → Span → Span → Span × Span
  pub on_post_start : ℕ → Span → Span
  pub on_pre_stop : Option Err → ℕ → Span → Span
  pub on_set_tag : String → String → ℕ → Span → Span
  pub on_add_counter : String → Float64 → ℕ → Span → Span

-- IsSpanHook
abbrev pub is_span_hook : Interfaces → Bool
is_span_hook i = i.creates_child || (i.starts_stops || (i.sets_tag || i.adds_counter))

-- The loops over the hooks of a span: each that has the interface acts on the span.
unfoldable pub run_hooks : (ℕ → Bool) → (ℕ → Span → Span) → List ℕ → Span → Span
run_hooks has_it act [] s = s
run_hooks has_it act (h ∷ hs) s = run_hooks has_it act hs (if has_it h then act h s else s)

module _ {Err : Type 0} (env : Hooks Err) where
  abbrev pub on_start : Span → Span
  on_start s = run_hooks (λ h. (env.implements h).starts_stops) env.on_post_start s.hooks s

  abbrev pub span_hooks : List ℕ → List ℕ
  span_hooks [] = []
  span_hooks (h ∷ hs) = if is_span_hook (env.implements h) then h ∷ span_hooks hs else span_hooks hs

  abbrev pub add_hooks : List ℕ → Span → Span
  add_hooks hs s = record s { hooks = s.hooks ++ span_hooks hs }

  abbrev pub set_tag : String → String → Span → Span
  set_tag key value s =
      run_hooks (λ h. (env.implements h).sets_tag) (env.on_set_tag key value) s.hooks
        (record s { trace = tag_in key value s.trace })

  abbrev pub add_counter : String → Float64 → Span → Span
  add_counter key delta s =
      run_hooks (λ h. (env.implements h).adds_counter) (env.on_add_counter key delta) s.hooks
        (record s { trace = count_in key delta s.trace })

abbrev pub set_debug : Bool → Span → Span
set_debug v s = record s { trace = record s.trace { flags = with_debug v s.trace.flags } }

abbrev pub set_operation_name : String → Span → Span
set_operation_name n s = record s { trace = record s.trace { name = n } }

-- generateAllowList: the keys without repetition, in the order of their first mention.
unfoldable pub keys_of : List String → Map Bool → Map Bool
keys_of [] m = m
keys_of (tag ∷ tags) m = keys_of tags (insert tag true m)

abbrev pub generate_allow_list : List String → List String
generate_allow_list list = map (λ e. e.0) (keys_of list (keys_of ("client" ∷ "endpoint" ∷ []) []))

abbrev pub tag_of : Option String → String
tag_of none = ""
tag_of (some v) = v

-- MetricsTags, by the allow-list.
unfoldable pub metrics_tags : List String → Map String → Map String
metrics_tags [] tags = []
metrics_tags (key ∷ keys) tags =
    let rest = metrics_tags keys tags in
    let value = tag_of (lookup key tags) in if str_eq value "" then rest else (key, value) ∷ rest
