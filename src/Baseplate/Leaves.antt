-- ===== src/Baseplate/Leaves.antt =====
-- Serve of baseplate.go whose context is canceled before a signal, and a shutdown that runs to its end.
use baseplate_go.Common.{
  ℕ, ◌≡◌, refl, ap, ◌∙◌, true, false, List, [], ◌∷◌, Option, none, some, Bytes, if_elim,
  if◌then◌else◌,
}
use baseplate_go.Std.Instant.{Instant}
use baseplate_go.Errorsbp.Batch.{Error}
use baseplate_go.Batchcloser.{BatchCloser, new, add}
use baseplate_go.Std.Results.{Result, ok, err}
use baseplate_go.Baseplate.{
  ServeArgs, timeout_of, Outcome, completed, abandoned, Handler, left, Service, Event, signaled,
  canceled, ticked, handler_left, closer_returned, closers_chosen, done_chosen, serve_returned,
  received, Parts, Made, made, refused, new_baseplate, is_closing, close_next, is_done, on_signal,
  on_left, answer, on_closed, receive, serve, close_error, handle, run,
}

-- The events of a shutdown in which each closer returns, and nothing else happens.
abbrev pub drain : List ℕ → List Event → List Event
drain [] vs = vs
drain (c ∷ cs) vs = closer_returned ∷ drain cs vs

abbrev pub ending : List Event
ending = closers_chosen ∷ serve_returned ∷ received ∷ []

module _ (text : ℕ → Bytes) (close_one : ℕ → Option Error) (a : ServeArgs) where
  abbrev HasLeft : Option Outcome → Service → Type 0
  HasLeft r s = (s.handler ≡ left) × (s.returned ≡ r)

  has_left :
      (r : Option Outcome) (s : Service) (step : Handler → Service)
      → HasLeft r s
      → step left ≡ s
      → HasLeft r (step s.handler)
  has_left r s step (e, f) q = (
    ap (λ h. (step h).handler) e ∙ (ap (λ u. u.handler) q ∙ e),
    ap (λ h. (step h).returned) e ∙ (ap (λ u. u.returned) q ∙ f),
  )

  on_closed-left :
      (r : Option Outcome) (cs : List ℕ) (s : Service) (e : Option Error)
      → HasLeft r s
      → HasLeft r (on_closed e cs s)
  on_closed-left r [] s e g = has_left r s (λ h. answer (completed e) h s) g refl
  on_closed-left r (c ∷ cs) s e g = g

  handle-left :
      (r : Option Outcome) (v : Event) (s : Service)
      → HasLeft r s
      → HasLeft r (handle text close_one a v s)
  unfolding handle
  handle-left r signaled s g = has_left r s (λ h. on_signal h s) g refl
  handle-left r canceled s g = g
  handle-left r (ticked d) s g = g
  handle-left r handler_left s g = has_left r s (λ h. on_left h s) g refl
  handle-left r closer_returned s g =
      has_left r s (λ h. if is_closing h then close_next s.to_close s else s) g refl
  handle-left r closers_chosen s g = on_closed-left r s.to_close s (close_error text close_one a) g
  handle-left r done_chosen s g =
      if_elim (HasLeft r) (is_done (timeout_of a) s) _ _
        (λ e. has_left r s (λ h. answer abandoned h s) g refl) (λ e. g)
  handle-left r serve_returned s g = g
  handle-left r received s g =
      if_elim (HasLeft r) s.serving _ _ (λ e. g) (λ e. has_left r s (λ h. receive h s) g refl)

  run-left :
      (r : Option Outcome) (vs : List Event) (s : Service)
      → HasLeft r s
      → HasLeft r (run text close_one a vs s)
  unfolding run
  run-left r [] s g = g
  run-left r (v ∷ vs) s g = run-left r vs (handle text close_one a v s) (handle-left r v s g)

  -- If the context is canceled while Serve waits for a signal, and the handler leaves for that, then Serve never
  -- returns, whatever happens afterwards, not even when the server has stopped.
  pub canceled_never_returns :
      (now : Instant) (vs : List Event)
      → (run text close_one a
          (canceled ∷ handler_left ∷ vs)
          (serve text close_one a now false)).returned
        ≡ none
  unfolding run handle
  canceled_never_returns now vs =
      (run-left none vs (record (serve text close_one a now true) { handler = left })
        (refl, refl)).1

abbrev oks : {E : Type 0} → List (Result E ℕ) → List ℕ
oks [] = []
oks (ok c ∷ rs) = c ∷ oks rs
oks (err e ∷ rs) = []

abbrev closers_in : {E : Type 0} → Made E → BatchCloser
closers_in (made bc) = bc
closers_in (refused bc e) = bc

-- What New has opened before it returns is what it has closed, if it returns an error, and else what Close of the
-- Baseplate closes.
pub new_baseplate-closers :
    {E : Type 0} (p : Parts E)
    → closers_in (new_baseplate p) ≡ p.cancel ∷ oks (p.sentry ∷ p.secrets ∷ p.tracing ∷ [])
unfolding new add
new_baseplate-closers p = go p.cancel p.sentry p.secrets p.tracing p.edge_context
  where
    go :
        {E : Type 0} (cancel : ℕ) (r s t : Result E ℕ) (e : Option E)
        → closers_in (
            new_baseplate
              (record { cancel = cancel; sentry = r; secrets = s; tracing = t; edge_context = e }))
          ≡ cancel ∷ oks (r ∷ s ∷ t ∷ [])
    go cancel (err f) s t e = refl
    go cancel (ok c) (err f) t e = refl
    go cancel (ok c) (ok d) (err f) e = refl
    go cancel (ok c) (ok d) (ok f) none = refl
    go cancel (ok c) (ok d) (ok f) (some e) = refl
