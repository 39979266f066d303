-- ===== src/Tracing/Traces.antt =====
-- The spans of a request: all that descend from the span that StartSpanFromHeaders starts.
use baseplate_go.Common.{
  ℕ, ◌≡◌, refl, Bool, true, false, ◌||◌, ◌&&◌, List, [], Option, none, String, if_elim,
  if◌then◌else◌, ◌∙◌, ap, subst,
}
use baseplate_go.Std.Float64.{Float64}
use baseplate_go.Std.Instant.{Instant, is_zero}
use baseplate_go.Tracing.{
  Trace, Span, Hooks, is_server, server_span, set_tag, add_counter, add_hooks, set_debug,
  set_operation_name, is_debug_set,
}
use baseplate_go.Tracing.Starts.{
  Headers, Starting, any_set, parse_id, or_else, of_headers, start_child, start_from,
  start_span_from_headers, start_span, inherit, new_of, init_child_span, on_create_server_span,
}
use baseplate_go.Tracing.Stops.{
  Failure, tag_if, is_failed, is_deadline, Tracer, Output, stopped, stop, record_span,
  to_zipkin_span, pre_stop, with_pre_stop_hooks, finished_at,
}
use baseplate_go.Tracing.Identity.{
  Ids, ids_of, identity, KeepsIdentity, run_hooks-identity, set_tag-identity, add_counter-identity,
  on_start-identity, on_create_server_span-identity, server_start-identity, set_tags-identity,
  init_child_span-identity,
}

-- The states of a span and of its children, of their children and so on: `u` is what a call makes of `s`.
pub data Descends (env : Hooks Failure) (root : Span) : Span → Type 0 where
  itself : Descends env root root
  tagged :
      {s u : Span} (key value : String)
      → Descends env root s
      → u ≡ set_tag env key value s
      → Descends env root u
  counted :
      {s u : Span} (key : String) (delta : Float64)
      → Descends env root s
      → u ≡ add_counter env key delta s
      → Descends env root u
  with_hooks :
      {s u : Span} (hs : List ℕ)
      → Descends env root s
      → u ≡ add_hooks env hs s
      → Descends env root u
  debugged : {s u : Span} (v : Bool) → Descends env root s → u ≡ set_debug v s → Descends env root u
  renamed :
      {s u : Span} (name : String)
      → Descends env root s
      → u ≡ set_operation_name name s
      → Descends env root u
  parent :
      {s u : Span} (a : Starting)
      → Descends env root s
      → u ≡ (start_child env a s).0
      → Descends env root u
  child :
      {s u : Span} (a : Starting)
      → Descends env root s
      → u ≡ (start_child env a s).1
      → Descends env root u
  ended :
      {s u : Span} (now finish_time : Instant) (e : Option Failure)
      → Descends env root s
      → u ≡ stopped env now e (finished_at finish_time s)
      → Descends env root u

abbrev Shares : Span → Span → Type 0
Shares root s = (s.trace.trace_id ≡ root.trace.trace_id) × (s.trace.sampled ≡ root.trace.sampled)

Shares-identity : (root s u : Span) → identity u ≡ identity s → Shares root s → Shares root u
Shares-identity root s u e (i, b) = (ap (λ d. d.trace_id) e ∙ i, ap (λ d. d.sampled) e ∙ b)

tag_if-ids : (b : Bool) (key : String) (t : Trace) → ids_of (tag_if b key t) ≡ ids_of t
tag_if-ids b key t = if_elim (λ u. ids_of u ≡ ids_of t) b _ _ (λ e. refl) (λ e. refl)

pre_stop-identity : (e : Option Failure) (s : Span) → identity (pre_stop e s) ≡ identity s
pre_stop-identity e s =
    let t = tag_if (is_server s.span_type && is_deadline e) "timed_out" s.trace in
    let u = tag_if (is_failed e) "error" t in
    tag_if-ids (is_debug_set u) "debug" u
    ∙ (tag_if-ids _ "error" t ∙ tag_if-ids _ "timed_out" s.trace)

-- What a child of `s` is known by.
abbrev pub child_ids : Starting → Span → Ids
child_ids a s = record {
  trace_id = s.trace.trace_id;
  span_id = a.span_id;
  parent_id = s.trace.span_id;
  sampled = s.trace.sampled;
}

module _ (env : Hooks Failure) (keeps : KeepsIdentity env) where
  stopped-identity :
      (now : Instant) (e : Option Failure) (s : Span) → identity (stopped env now e s) ≡ identity s
  unfolding stopped
  stopped-identity now e s =
      let r = with_pre_stop_hooks env e (pre_stop e s) in
      if_elim (λ t. identity t ≡ identity r) (is_zero r.trace.stop) _ _ (λ e. refl) (λ e. refl)
      ∙ (run_hooks-identity _ (env.on_pre_stop e) (pre_stop e s).hooks (pre_stop e s)
            (keeps.at_pre_stop e)
          ∙ pre_stop-identity e s)

  finished_at-identity :
      (finish_time : Instant) (s : Span) → identity (finished_at finish_time s) ≡ identity s
  finished_at-identity finish_time s =
      if_elim (λ t. identity t ≡ identity s) (is_zero finish_time) _ _ (λ e. refl) (λ e. refl)

  -- A span that is started with a parent gets the parent's trace id and sampling decision, has the parent as
  -- its parent and an id of its own, whatever its type and the hooks are.
  pub start_child-identity :
      (a : Starting) (s : Span)
      → (identity (start_child env a s).0 ≡ identity s)
        × (identity (start_child env a s).1 ≡ child_ids a s)
  unfolding start_child
  start_child-identity a s =
      let r = init_child_span env s (new_of a) in
      let k = init_child_span-identity env keeps s (new_of a) in
      (
        k.0,
        set_tags-identity env keeps a.tags _
            ∙ (server_start-identity env keeps r.1
                ∙ (k.1
                    ∙ if_elim (λ t. identity (inherit s t) ≡ child_ids a s) (is_zero a.start_time) _
                        _ (λ e. refl) (λ e. refl))),
      )

  Descends-Shares : {root s : Span} → Descends env root s → Shares root s
  Descends-Shares {root} itself = (refl, refl)
  Descends-Shares {root} (tagged {s} {u} key value d q) =
      Shares-identity root s u (ap identity q ∙ set_tag-identity env keeps key value s)
        (Descends-Shares d)
  Descends-Shares {root} (counted {s} {u} key delta d q) =
      Shares-identity root s u (ap identity q ∙ add_counter-identity env keeps key delta s)
        (Descends-Shares d)
  Descends-Shares {root} (with_hooks {s} {u} hs d q) =
      Shares-identity root s u (ap identity q) (Descends-Shares d)
  Descends-Shares {root} (debugged {s} {u} v d q) =
      Shares-identity root s u (ap identity q) (Descends-Shares d)
  Descends-Shares {root} (renamed {s} {u} name d q) =
      Shares-identity root s u (ap identity q) (Descends-Shares d)
  Descends-Shares {root} (parent {s} {u} a d q) =
      Shares-identity root s u (ap identity q ∙ (start_child-identity a s).0) (Descends-Shares d)
  Descends-Shares {root} (child {s} {u} a d q) =
      let e = ap identity q ∙ (start_child-identity a s).1 in
      let rest = Descends-Shares d in
      (ap (λ i. i.trace_id) e ∙ rest.0, ap (λ i. i.sampled) e ∙ rest.1)
  Descends-Shares {root} (ended {s} {u} now finish_time e d q) =
      Shares-identity root s u
        (ap identity q
          ∙ (stopped-identity now e (finished_at finish_time s)
              ∙ finished_at-identity finish_time s))
        (Descends-Shares d)

  start_from-ids :
      (h : Headers) (a : Starting)
      → identity (start_from env h a) ≡ record {
        trace_id = or_else a.trace_id (parse_id h.trace_id);
        span_id = a.span_id;
        parent_id = or_else [] (parse_id h.span_id);
        sampled = or_else false h.sampled;
      }
  unfolding start_from
  start_from-ids h a =
      on_start-identity env keeps (on_create_server_span env (of_headers h a))
      ∙ on_create_server_span-identity env keeps (of_headers h a)

  -- Upstream's decision holds for the whole request: if the headers are set, then every span of it, at any time, when
  -- it is stopped is sent exactly if the headers say that it is sampled or its own debug flag is set then, and
  -- it carries the trace id of the headers, if that is not empty and not over 1024 bytes. The hooks leave
  -- the ids and the sampling decision of the spans alone.
  pub stop_lem :
      {E : Type 0} (out : Output E) (rate : Float64) (h : Headers) (a : Starting) {s : Span}
      → any_set h ≡ true
      → Descends env (start_span_from_headers env rate h a).1 s
      → (t : Tracer) (is_canceled : Bool) (now : Instant) (e : Option Failure)
      → ((stopped env now e s).trace.trace_id ≡ or_else a.trace_id (parse_id h.trace_id))
        × ((stop out env t is_canceled now e s).1 ≡ (
            if or_else false h.sampled || is_debug_set (stopped env now e s).trace
            then record_span out t is_canceled
                (to_zipkin_span t.endpoint now (stopped env now e s).trace)
            else ([], none)))
  unfolding stop
  stop_lem out rate h a {s} set d t is_canceled now e =
      let is_from = λ (b : Bool).
        Descends env
          (if b
            then (none, start_from env h a)
            else start_span env rate (record a { span_type = server_span })).1
          s in
      let d' : Descends env (start_from env h a) s = subst is_from set d in
      let shares =
        Shares-identity (start_from env h a) s (stopped env now e s) (stopped-identity now e s)
          (Descends-Shares d') in
      let q = start_from-ids h a in
      (
        shares.0 ∙ ap (λ i. i.trace_id) q,
        ap
            (λ b.
              if b || is_debug_set (stopped env now e s).trace
              then record_span out t is_canceled
                  (to_zipkin_span t.endpoint now (stopped env now e s).trace)
              else ([], none))
            (shares.1 ∙ ap (λ i. i.sampled) q),
      )
