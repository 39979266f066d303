-- ===== src/Baseplate/Outcomes.antt =====
-- What holds of the outcome that Serve of baseplate.go is about to return, at every step.
use baseplate_go.Common.{
  ℕ, zero, suc, ◌+◌, ◌≤◌, ◌≡◌, ◌≢◌, refl, sym, ap, subst, ◌∙◌, ◌⊎◌, inl, inr, true, false, ◌||◌,
  List, [], ◌∷◌, Option, none, some, Bytes, leb→le, if_elim, Bool-cases, arith,
}
use baseplate_go.Common.Int.{ℤ, pos, negsuc, ◌+ℤ◌, ◌≤ℤ◌, ◌<ℤ◌}
use baseplate_go.Errorsbp.Batch.{Error}
use baseplate_go.Baseplate.{
  ServeArgs, timeout_of, Outcome, completed, abandoned, Handler, listening, left, closing,
  answering, answered, Service, Event, signaled, canceled, ticked, handler_left, closer_returned,
  closers_chosen, done_chosen, serve_returned, received, is_closing, close_next, is_past, is_done,
  on_signal, on_left, answer, on_closed, receive, close_error, handle,
}

-- The closers in the order in which they were closed, and then the others.
abbrev pub restore : List ℕ → List ℕ → List ℕ
restore [] rest = rest
restore (c ∷ cs) rest = restore cs (c ∷ rest)

abbrev pub TimedOut : ℤ → Service → Type 0
TimedOut timeout s =
    (s.is_canceled ≡ true) ⊎ (pos 0 <ℤ timeout × (pos s.signaled_at +ℤ timeout ≤ℤ pos s.now))

is_past-le :
    (timeout : ℤ) (s : Service)
    → is_past timeout s ≡ true
    → pos 0 <ℤ timeout × (pos s.signaled_at +ℤ timeout ≤ℤ pos s.now)
unfolding ◌+ℤ◌
is_past-le (pos zero) s h = ground arith
is_past-le (pos (suc n)) s h = (omega arith, ground (arith, leb→le (s.signaled_at + suc n) s.now))
is_past-le (negsuc n) s h = ground arith

is_done-TimedOut : (timeout : ℤ) (s : Service) → is_done timeout s ≡ true → TimedOut timeout s
is_done-TimedOut timeout s h = elim (Bool-cases s.is_canceled) [
  | inl c ↦ inl c
  | inr c ↦ inr (is_past-le timeout s (ap (λ b. b || is_past timeout s) (sym c) ∙ h))
]

later_deadline :
    (timeout : ℤ) (at now later : ℕ)
    → now ≤ later
    → pos at +ℤ timeout ≤ℤ pos now
    → pos at +ℤ timeout ≤ℤ pos later
later_deadline timeout at now later h k = omega arith

cons_not_nil : {c : ℕ} {cs : List ℕ} → c ∷ cs ≢ []
cons_not_nil h = ground arith

module _ (text : ℕ → Bytes) (close_one : ℕ → Option Error) (a : ServeArgs) where
  abbrev pub IsRight : Outcome → Service → Type 0
  IsRight (completed r) s = (s.to_close ≡ []) × (r ≡ close_error text close_one a)
  IsRight abandoned s = TimedOut (timeout_of a) s

  abbrev pub Fitting : Handler → Service → Type 0
  Fitting listening s = s.returned ≡ none
  Fitting left s = s.returned ≡ none
  Fitting closing s = s.returned ≡ none
  Fitting (answering o) s = IsRight o s × (s.returned ≡ none)
  Fitting answered s = (o : Outcome) × (s.returned ≡ some o) × IsRight o s × (s.serving ≡ false)

  -- What the steps of the clock, of the closers and of the server do to a service.
  record Later (s u : Service) : Type 0 where
    returned_same : u.returned ≡ s.returned
    closed_all : s.to_close ≡ [] → u.to_close ≡ []
    canceled_still : s.is_canceled ≡ true → u.is_canceled ≡ true
    signaled_same : u.signaled_at ≡ s.signaled_at
    not_before : s.now ≤ u.now
    stopped_still : s.serving ≡ false → u.serving ≡ false

  IsRight-Later : (o : Outcome) (s u : Service) → Later s u → IsRight o s → IsRight o u
  IsRight-Later (completed r) s u l (c, e) = (l.closed_all c, e)
  IsRight-Later abandoned s u l (inl c) = inl (l.canceled_still c)
  IsRight-Later abandoned s u l (inr (p, d)) = inr (
    p,
    subst (λ x. pos x +ℤ timeout_of a ≤ℤ pos u.now) (sym l.signaled_same)
        (later_deadline (timeout_of a) s.signaled_at s.now u.now l.not_before d),
  )

  Fitting-Later : (h : Handler) (s u : Service) → Later s u → Fitting h s → Fitting h u
  Fitting-Later listening s u l f = l.returned_same ∙ f
  Fitting-Later left s u l f = l.returned_same ∙ f
  Fitting-Later closing s u l f = l.returned_same ∙ f
  Fitting-Later (answering o) s u l (r, f) = (IsRight-Later o s u l r, l.returned_same ∙ f)
  Fitting-Later answered s u l (o, f, r, q) =
      (o, l.returned_same ∙ f, IsRight-Later o s u l r, l.stopped_still q)

  abbrev pub IsFit : Service → Type 0
  IsFit s = Fitting s.handler s

  -- One lemma for each step of the handler, on the handler of the service and what fits it.
  on_signal-IsFit : (h : Handler) (s : Service) → Fitting h s → IsFit s → IsFit (on_signal h s)
  on_signal-IsFit listening s f g = f
  on_signal-IsFit left s f g = g
  on_signal-IsFit closing s f g = g
  on_signal-IsFit (answering o) s f g = g
  on_signal-IsFit answered s f g = g

  on_left-IsFit : (h : Handler) (s : Service) → Fitting h s → IsFit s → IsFit (on_left h s)
  on_left-IsFit listening s f g = if_elim IsFit s.is_canceled _ _ (λ e. f) (λ e. g)
  on_left-IsFit left s f g = g
  on_left-IsFit closing s f g = g
  on_left-IsFit (answering o) s f g = g
  on_left-IsFit answered s f g = g

  answer-IsFit :
      (o : Outcome) (h : Handler) (s : Service)
      → Fitting h s
      → IsFit s
      → IsRight o (record s { handler = answering o })
      → IsFit (answer o h s)
  answer-IsFit o listening s f g r = g
  answer-IsFit o left s f g r = g
  answer-IsFit o closing s f g r = (r, f)
  answer-IsFit o (answering p) s f g r = g
  answer-IsFit o answered s f g r = g

  on_closed-IsFit :
      (cs : List ℕ) (s : Service)
      → s.to_close ≡ cs
      → IsFit s
      → IsFit (on_closed (close_error text close_one a) cs s)
  on_closed-IsFit [] s e g = answer-IsFit (completed _) s.handler s g g (e, refl)
  on_closed-IsFit (c ∷ cs) s e g = g

  answering-IsRight :
      (o : Outcome) (s : Service)
      → IsRight o s
      → IsRight o (record s { handler = answered; returned = some o })
  answering-IsRight (completed r) s q = q
  answering-IsRight abandoned s q = q

  receive-IsFit :
      (h : Handler) (s : Service) → s.serving ≡ false → Fitting h s → IsFit s → IsFit (receive h s)
  receive-IsFit listening s q f g = g
  receive-IsFit left s q f g = g
  receive-IsFit closing s q f g = g
  receive-IsFit (answering o) s q (r, f) g = (o, refl, answering-IsRight o s r, q)
  receive-IsFit answered s q f g = g

  close_next-Later :
      (c : ℕ) (cs : List ℕ) (s : Service) → s.to_close ≡ c ∷ cs → Later s (close_next (c ∷ cs) s)
  close_next-Later c cs s e = record {
    returned_same = refl;
    closed_all = λ d. absurd (cons_not_nil (sym e ∙ d));
    canceled_still = λ c. c;
    signaled_same = refl;
    not_before = omega arith;
    stopped_still = λ c. c;
  }

  close_next-IsFit :
      (cs : List ℕ) (s : Service) → s.to_close ≡ cs → IsFit s → IsFit (close_next cs s)
  close_next-IsFit [] s e g = g
  close_next-IsFit (c ∷ cs) s e g =
      Fitting-Later s.handler s (close_next (c ∷ cs) s) (close_next-Later c cs s e) g

  pub handle-IsFit : (v : Event) (s : Service) → IsFit s → IsFit (handle text close_one a v s)
  unfolding handle
  handle-IsFit signaled s g = on_signal-IsFit s.handler s g g
  handle-IsFit canceled s g =
      Fitting-Later s.handler s (record s { is_canceled = true })
        (record {
          returned_same = refl;
          closed_all = λ c. c;
          canceled_still = λ c. refl;
          signaled_same = refl;
          not_before = omega arith;
          stopped_still = λ c. c;
        })
        g
  handle-IsFit (ticked d) s g =
      Fitting-Later s.handler s (record s { now = s.now + d })
        (record {
          returned_same = refl;
          closed_all = λ c. c;
          canceled_still = λ c. c;
          signaled_same = refl;
          not_before = omega arith;
          stopped_still = λ c. c;
        })
        g
  handle-IsFit handler_left s g = on_left-IsFit s.handler s g g
  handle-IsFit closer_returned s g =
      if_elim IsFit (is_closing s.handler) _ _ (λ e. close_next-IsFit s.to_close s refl g) (λ e. g)
  handle-IsFit closers_chosen s g = on_closed-IsFit s.to_close s refl g
  handle-IsFit done_chosen s g =
      if_elim IsFit (is_done (timeout_of a) s) _ _
        (λ e. answer-IsFit abandoned s.handler s g g (is_done-TimedOut (timeout_of a) s e)) (λ e. g)
  handle-IsFit serve_returned s g =
      Fitting-Later s.handler s (record s { serving = false })
        (record {
          returned_same = refl;
          closed_all = λ c. c;
          canceled_still = λ c. c;
          signaled_same = refl;
          not_before = omega arith;
          stopped_still = λ c. refl;
        })
        g
  handle-IsFit received s g =
      if_elim IsFit s.serving _ _ (λ e. g) (λ e. receive-IsFit s.handler s e g g)
