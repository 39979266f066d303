-- ===== src/Tracing/Tests.antt =====
-- A request with a span of its own and a child that a hook marks.
use baseplate_go.Common.{
  ℕ, ◌≡◌, refl, true, false, ◌||◌, [], ◌∷◌, ◌++◌, codes, none, some, lookup, insert, if◌then◌else◌,
}
use baseplate_go.Common.Int.{pos, negsuc, ◌+ℤ◌, ◌-ℤ◌}
use baseplate_go.Std.Float64.{Float64, of_int}
use baseplate_go.Std.Results.{ok}
use baseplate_go.Tracing.{
  Span, Hooks, client_span, server_span, tag_in, run_hooks, with_debug, is_debug_set,
  generate_allow_list, keys_of, metrics_tags,
}
use baseplate_go.Tracing.Starts.{
  Headers, Starting, or_else, parse_id, hex_id_64, non_zero, start_from, start_child,
  start_span_from_headers, run_create_hooks, set_tags,
}
use baseplate_go.Tracing.Stops.{Failure, Tracer, Output, stop, stopped, record_span, to_zipkin_span}
use baseplate_go.Tracing.Identity.{KeepsIdentity}
use baseplate_go.Tracing.Traces.{itself, child, stop_lem}

-- Hook 1 is added to every server span, and tags the children.
abbrev mark : Span → Span
mark s = record s { trace = tag_in "marked" "yes" s.trace }

abbrev hooks : Hooks Failure
hooks = record {
  implements = λ h. record {
    creates_child = true;
    starts_stops = false;
    sets_tag = false;
    adds_counter = false;
  };
  create_server = 1 ∷ [];
  on_create_server = λ h s. record s { hooks = s.hooks ++ (1 ∷ []) };
  on_create_child = λ h p c. (p, mark c);
  on_post_start = λ h s. s;
  on_pre_stop = λ e h s. s;
  on_set_tag = λ key value h s. s;
  on_add_counter = λ key delta h s. s;
}

hooks-KeepsIdentity : KeepsIdentity hooks
hooks-KeepsIdentity = record {
  at_create_server = λ h s. refl;
  at_create_parent = λ h p c. refl;
  at_create_child = λ h p c. refl;
  at_post_start = λ h s. refl;
  at_pre_stop = λ e h s. refl;
  at_set_tag = λ key value h s. refl;
  at_add_counter = λ key delta h s. refl;
}

abbrev upstream : Headers
upstream = record { trace_id = codes "77"; span_id = codes "5"; flags = []; sampled = some true }

abbrev request : Starting
request = record {
  operation_name = "serve";
  span_type = server_span;
  references = [];
  start_time = 0;
  tags = [];
  now = 1_000;
  trace_id = codes "1";
  span_id = codes "2";
  root_trace_id = codes "3";
  drawn = of_int (pos 0);
}

abbrev client_call : Starting
client_call = record request {
  operation_name = "call";
  span_type = client_span;
  span_id = codes "4";
}

abbrev rate : Float64
rate = of_int (pos 0)

abbrev root : Span
root = (start_span_from_headers hooks rate upstream request).1

abbrev called : Span
called = (start_child hooks client_call root).1

abbrev output : Output ℕ
output = record { marshal = λ z. ok z.trace_id; send = λ background data_. none }

abbrev tracer : Tracer
tracer = record { recording = true; endpoint = record { service_name = "s"; ipv4 = "127.0.0.1" } }

stop_lem_example :
    ((stopped hooks 2_000 none called).trace.trace_id ≡ or_else (codes "1") (parse_id (codes "77")))
    × ((stop output hooks tracer false 2_000 none called).1 ≡ (
        if or_else false (some true) || is_debug_set (stopped hooks 2_000 none called).trace
        then record_span output tracer false
            (to_zipkin_span tracer.endpoint 2_000 (stopped hooks 2_000 none called).trace)
        else ([], none)))
stop_lem_example =
    stop_lem hooks hooks-KeepsIdentity output rate upstream request {s = called} refl
      (child client_call itself refl) tracer false 2_000 none

sent_once : (stop output hooks tracer false 2_000 none called).1 ≡ ((false, codes "77") ∷ [], none)
unfolding stop stopped start_child start_from run_hooks run_create_hooks set_tags insert record_span
    to_zipkin_span
sent_once = refl

marked : lookup "marked" (stopped hooks 2_000 none called).trace.tags ≡ some "yes"
unfolding stopped start_child start_from run_hooks run_create_hooks set_tags insert lookup
marked = refl

parent_of_call : called.trace.parent_id ≡ codes "2"
unfolding start_child start_from run_hooks run_create_hooks set_tags insert
parent_of_call = refl

hex : hex_id_64 255 ≡ codes "00000000000000ff"
hex = refl

redrawn : non_zero (0 ∷ 0 ∷ 9 ∷ []) ≡ some 9
unfolding non_zero
redrawn = refl

debug_bit : (with_debug true (negsuc 3) ≡ negsuc 2) × (with_debug false (pos 7) ≡ pos 6)
unfolding ◌+ℤ◌ ◌-ℤ◌
debug_bit = (refl, refl)

allowed :
    metrics_tags
      (generate_allow_list ("a" ∷ "client" ∷ []))
      (("a", "1") ∷ ("b", "2") ∷ ("client", "") ∷ [])
    ≡ ("a", "1") ∷ []
unfolding metrics_tags keys_of insert lookup
allowed = refl
