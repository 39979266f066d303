-- ===== src/Baseplate/Shutdown.antt =====
-- When Serve of baseplate.go returns, and what has been closed then.
use baseplate_go.Common.{
  ℕ, ◌≡◌, refl, sym, ap, subst, ◌∙◌, Bool, false, List, [], ◌∷◌, Option, some, Bytes, if_elim,
}
use baseplate_go.Std.Instant.{Instant}
use baseplate_go.Errorsbp.Batch.{Error}
use baseplate_go.Batchcloser.{close}
use baseplate_go.Baseplate.{
  ServeArgs, timeout_of, closers_of, Outcome, completed, abandoned, Handler, listening, left,
  closing, answering, answered, Service, Event, signaled, canceled, ticked, handler_left,
  closer_returned, closers_chosen, done_chosen, serve_returned, received, is_closing, close_next,
  is_done, on_signal, on_left, answer, on_closed, receive, serve, close_error, handle, run,
}
use baseplate_go.Baseplate.Outcomes.{restore, TimedOut, IsRight, Fitting, IsFit, handle-IsFit}

module _ (text : ℕ → Bytes) (close_one : ℕ → Option Error) (a : ServeArgs) where
  -- The closers, in their order, stay those that the arguments give.
  abbrev all_of : Service → List ℕ
  all_of s = restore s.closed s.to_close

  on_signal-all : (h : Handler) (s : Service) → all_of (on_signal h s) ≡ all_of s
  on_signal-all listening s = refl
  on_signal-all left s = refl
  on_signal-all closing s = refl
  on_signal-all (answering o) s = refl
  on_signal-all answered s = refl

  on_left-all : (h : Handler) (s : Service) → all_of (on_left h s) ≡ all_of s
  on_left-all listening s =
      if_elim (λ u. all_of u ≡ all_of s) s.is_canceled _ _ (λ e. refl) (λ e. refl)
  on_left-all left s = refl
  on_left-all closing s = refl
  on_left-all (answering o) s = refl
  on_left-all answered s = refl

  answer-all : (o : Outcome) (h : Handler) (s : Service) → all_of (answer o h s) ≡ all_of s
  answer-all o listening s = refl
  answer-all o left s = refl
  answer-all o closing s = refl
  answer-all o (answering p) s = refl
  answer-all o answered s = refl

  on_closed-all :
      (e : Option Error) (cs : List ℕ) (s : Service) → all_of (on_closed e cs s) ≡ all_of s
  on_closed-all e [] s = answer-all (completed e) s.handler s
  on_closed-all e (c ∷ cs) s = refl

  receive-all : (h : Handler) (s : Service) → all_of (receive h s) ≡ all_of s
  receive-all listening s = refl
  receive-all left s = refl
  receive-all closing s = refl
  receive-all (answering o) s = refl
  receive-all answered s = refl

  close_next-all :
      (cs : List ℕ) (s : Service) → s.to_close ≡ cs → all_of (close_next cs s) ≡ all_of s
  close_next-all [] s e = refl
  close_next-all (c ∷ cs) s e = ap (restore s.closed) (sym e)

  handle-all : (v : Event) (s : Service) → all_of (handle text close_one a v s) ≡ all_of s
  unfolding handle
  handle-all signaled s = on_signal-all s.handler s
  handle-all canceled s = refl
  handle-all (ticked d) s = refl
  handle-all handler_left s = on_left-all s.handler s
  handle-all closer_returned s =
      if_elim (λ u. all_of u ≡ all_of s) (is_closing s.handler) _ _
        (λ e. close_next-all s.to_close s refl) (λ e. refl)
  handle-all closers_chosen s = on_closed-all (close_error text close_one a) s.to_close s
  handle-all done_chosen s =
      if_elim (λ u. all_of u ≡ all_of s) (is_done (timeout_of a) s) _ _
        (λ e. answer-all abandoned s.handler s) (λ e. refl)
  handle-all serve_returned s = refl
  handle-all received s =
      if_elim (λ u. all_of u ≡ all_of s) s.serving _ _ (λ e. refl) (λ e. receive-all s.handler s)

  run-kept :
      (vs : List Event) (s : Service)
      → IsFit text close_one a s
      → IsFit text close_one a (run text close_one a vs s)
        × (all_of (run text close_one a vs s) ≡ all_of s)
  unfolding run
  run-kept [] s g = (g, refl)
  run-kept (v ∷ vs) s g =
      let rest = run-kept vs (handle text close_one a v s) (handle-IsFit text close_one a v s g) in
      (rest.0, rest.1 ∙ handle-all v s)

  returned-IsRight :
      (h : Handler) (s : Service) (o : Outcome)
      → Fitting text close_one a h s
      → s.returned ≡ some o
      → (s.serving ≡ false) × IsRight text close_one a o s
  returned-IsRight listening s o f e = absurd (cc (f, e))
  returned-IsRight left s o f e = absurd (cc (f, e))
  returned-IsRight closing s o f e = absurd (cc (f, e))
  returned-IsRight (answering p) s o (r, f) e = absurd (cc (f, e))
  returned-IsRight answered s o (p, f, r, q) e =
      let same : p ≡ o = cc (f, e) in (q, subst (λ x. IsRight text close_one a x s) same r)

  -- What an outcome says of the service that it is returned by.
  abbrev pub Explains : Outcome → Service → Type 0
  Explains (completed e) s =
      (restore s.closed [] ≡ closers_of a) × (e ≡ (close text close_one (closers_of a)).1)
  Explains abandoned s = TimedOut (timeout_of a) s

  explained :
      (o : Outcome) (s : Service)
      → IsRight text close_one a o s
      → all_of s ≡ closers_of a
      → Explains o s
  explained (completed e) s (c, q) h = (ap (restore s.closed) (sym c) ∙ h, q)
  explained abandoned s r h = r

  -- Whatever happens, Serve returns only after the server's Serve has returned, and either with the error of Close,
  -- when each closer has been closed, in the order: the delay if it is positive, those of PreShutdown, the
  -- server, those of PostShutdown; or with the error of the context, when the context was canceled, or
  -- the timeout is positive and has passed since the signal.
  pub run-Explains :
      (now : Instant) (is_canceled : Bool) (vs : List Event) (o : Outcome)
      → (run text close_one a vs (serve text close_one a now is_canceled)).returned ≡ some o
      → ((run text close_one a vs (serve text close_one a now is_canceled)).serving ≡ false)
        × Explains o (run text close_one a vs (serve text close_one a now is_canceled))
  run-Explains now is_canceled vs o e =
      let s = run text close_one a vs (serve text close_one a now is_canceled) in
      let (fit, all) = run-kept vs (serve text close_one a now is_canceled) refl in
      let (stopped, right) = returned-IsRight s.handler s o fit e in
      (stopped, explained o s right all)
