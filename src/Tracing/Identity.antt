-- ===== src/Tracing/Identity.antt =====
-- What a hook cannot change of a span: the ids and the sampling decision, which the package does not export.
use baseplate_go.Common.{
  ℕ, ◌≡◌, refl, Bool, List, [], ◌∷◌, Bytes, Option, String, if_elim, if◌then◌else◌, ◌∙◌,
}
use baseplate_go.Std.Float64.{Float64}
use baseplate_go.Tracing.{Trace, Span, Hooks, is_server, run_hooks, set_tag, add_counter, on_start}
use baseplate_go.Tracing.Starts.{
  run_create_hooks, set_tags, on_create_server_span, server_start, inherit, init_child_span,
}

pub record Ids : Type 0 where
  pub trace_id : Bytes
  pub span_id : Bytes
  pub parent_id : Bytes
  pub sampled : Bool

abbrev pub ids_of : Trace → Ids
ids_of t = record {
  trace_id = t.trace_id;
  span_id = t.span_id;
  parent_id = t.parent_id;
  sampled = t.sampled;
}

abbrev pub identity : Span → Ids
identity s = ids_of s.trace

pub record KeepsIdentity {Err : Type 0} (env : Hooks Err) : Type 0 where
  pub at_create_server : (h : ℕ) (s : Span) → identity (env.on_create_server h s) ≡ identity s
  pub at_create_parent : (h : ℕ) (p c : Span) → identity (env.on_create_child h p c).0 ≡ identity p
  pub at_create_child : (h : ℕ) (p c : Span) → identity (env.on_create_child h p c).1 ≡ identity c
  pub at_post_start : (h : ℕ) (s : Span) → identity (env.on_post_start h s) ≡ identity s
  pub at_pre_stop :
      (e : Option Err) (h : ℕ) (s : Span) → identity (env.on_pre_stop e h s) ≡ identity s
  pub at_set_tag :
      (key value : String) (h : ℕ) (s : Span) → identity (env.on_set_tag key value h s) ≡ identity s
  pub at_add_counter :
      (key : String) (delta : Float64) (h : ℕ) (s : Span)
      → identity (env.on_add_counter key delta h s) ≡ identity s

pub run_hooks-identity :
    (has_it : ℕ → Bool) (act : ℕ → Span → Span) (hs : List ℕ) (s : Span)
    → ((h : ℕ) (s : Span) → identity (act h s) ≡ identity s)
    → identity (run_hooks has_it act hs s) ≡ identity s
unfolding run_hooks
run_hooks-identity has_it act [] s k = refl
run_hooks-identity has_it act (h ∷ hs) s k =
    run_hooks-identity has_it act hs _ k
    ∙ if_elim (λ t. identity t ≡ identity s) (has_it h) _ _ (λ e. k h s) (λ e. refl)

module _ {Err : Type 0} (env : Hooks Err) (keeps : KeepsIdentity env) where
  pub set_tag-identity :
      (key value : String) (s : Span) → identity (set_tag env key value s) ≡ identity s
  set_tag-identity key value s =
      run_hooks-identity _ (env.on_set_tag key value) s.hooks _ (keeps.at_set_tag key value)

  pub add_counter-identity :
      (key : String) (delta : Float64) (s : Span)
      → identity (add_counter env key delta s) ≡ identity s
  add_counter-identity key delta s =
      run_hooks-identity _ (env.on_add_counter key delta) s.hooks _ (keeps.at_add_counter key delta)

  pub on_start-identity : (s : Span) → identity (on_start env s) ≡ identity s
  on_start-identity s = run_hooks-identity _ env.on_post_start s.hooks s keeps.at_post_start

  pub on_create_server_span-identity :
      (s : Span) → identity (on_create_server_span env s) ≡ identity s
  on_create_server_span-identity s =
      if_elim (λ t. identity t ≡ identity s) (is_server s.span_type) _ _
        (λ e. run_hooks-identity _ env.on_create_server env.create_server s keeps.at_create_server)
        (λ e. refl)

  pub server_start-identity : (s : Span) → identity (server_start env s) ≡ identity s
  server_start-identity s =
      if_elim (λ t. identity t ≡ identity s) (is_server s.span_type) _ _
        (λ e. on_start-identity (on_create_server_span env s) ∙ on_create_server_span-identity s)
        (λ e. refl)

  pub set_tags-identity :
      (tags : List (String × String)) (s : Span) → identity (set_tags env tags s) ≡ identity s
  unfolding set_tags
  set_tags-identity [] s = refl
  set_tags-identity ((key, value) ∷ tags) s =
      set_tags-identity tags (set_tag env key value s) ∙ set_tag-identity key value s

  run_create_hooks-identity :
      (hs : List ℕ) (p c : Span)
      → (identity (run_create_hooks env hs p c).0 ≡ identity p)
        × (identity (run_create_hooks env hs p c).1 ≡ identity c)
  unfolding run_create_hooks
  run_create_hooks-identity [] p c = (refl, refl)
  run_create_hooks-identity (h ∷ hs) p c =
      let r = if (env.implements h).creates_child then env.on_create_child h p c else (p, c) in
      let IsKept = λ (q : Span × Span). (identity q.0 ≡ identity p) × (identity q.1 ≡ identity c) in
      let kept =
        if_elim IsKept (env.implements h).creates_child _ _
          (λ e. (keeps.at_create_parent h p c, keeps.at_create_child h p c)) (λ e. (refl, refl)) in
      let rest = run_create_hooks-identity hs r.0 r.1 in (rest.0 ∙ kept.0, rest.1 ∙ kept.1)

  pub init_child_span-identity :
      (s c : Span)
      → (identity (init_child_span env s c).0 ≡ identity s)
        × (identity (init_child_span env s c).1 ≡ identity (inherit s c))
  init_child_span-identity s c =
      let k = run_create_hooks-identity s.hooks s (inherit s c) in
      if_elim
        (λ (q : Span × Span). (identity q.0 ≡ identity s) × (identity q.1 ≡ identity (inherit s c)))
        (is_server c.span_type) _ _ (λ e. (refl, refl))
        (λ e. (k.0, on_start-identity (run_create_hooks env s.hooks s (inherit s c)).1 ∙ k.1))
