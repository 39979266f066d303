-- ===== src/Baseplate.antt =====
-- baseplate.go and drainer.go: Serve with its shutdown, New, and the drainer.
-- The goroutines of Serve meet in one state, and an event is what one of them, the program around them or the clock
-- does next; an event that is not possible in a state leaves the state as it is.
pub mod Outcomes
pub mod Shutdown
pub mod Leaves
mod Tests
use baseplate_go.Common.{
  ℕ, zero, suc, ◌+◌, ◌*◌, ◌==◌, Bool, true, false, not, ◌&&◌, ◌||◌, List, [], ◌∷◌, ◌++◌, Option,
  none, some, Bytes, leb, if◌then◌else◌,
}
use baseplate_go.Common.Int.{ℤ, pos, negsuc, ltb_ℤ}
use baseplate_go.Std.Instant.{Instant, second}
use baseplate_go.Std.Results.{Result, ok, err}
use baseplate_go.Errorsbp.Batch.{Error}
use baseplate_go.Batchcloser.{BatchCloser, add, new, close}

abbrev pub or_default : ℕ → ℤ → ℤ
or_default d (pos zero) = pos d
or_default d (pos (suc n)) = pos (suc n)
or_default d (negsuc n) = negsuc n

-- DefaultStopDelay, and the default of StopTimeout.
abbrev pub default_stop_delay : ℕ
default_stop_delay = 5 * second

abbrev pub default_stop_timeout : ℕ
default_stop_timeout = 30 * second

-- The arguments of Serve: a closer is a number; `sleeps` is the one that waits for the delay.
pub record ServeArgs : Type 0 where
  pub sleeps : ℕ
  pub server : ℕ
  pub pre_shutdown : List ℕ
  pub post_shutdown : List ℕ
  pub stop_timeout : ℤ
  pub stop_delay : ℤ

abbrev pub timeout_of : ServeArgs → ℤ
timeout_of a = or_default default_stop_timeout a.stop_timeout

abbrev pub delays : ServeArgs → BatchCloser
delays a =
    if ltb_ℤ (pos 0) (or_default default_stop_delay a.stop_delay)
    then add [] (a.sleeps ∷ [])
    else []

abbrev pub closers_of : ServeArgs → BatchCloser
closers_of a = add (add (add (delays a) a.pre_shutdown) (a.server ∷ [])) a.post_shutdown

-- What Serve returns: the error of Close, or that of the context.
pub data Outcome : Type 0 where
  completed : Option Error → Outcome
  abandoned : Outcome

-- The goroutine of HandleShutdown: it waits for a signal, or has left as the context was done; it waits for the
-- closers; it sends its answer; or its answer was received.
pub data Handler : Type 0 where
  listening : Handler
  left : Handler
  closing : Handler
  answering : Outcome → Handler
  answered : Handler

-- `serving` as long as the server's Serve has not returned; `to_close` and `closed` are the closers, as they come
-- and the last one first.
pub record Service : Type 0 where
  pub handler : Handler
  pub to_close : List ℕ
  pub closed : List ℕ
  pub is_canceled : Bool
  pub now : Instant
  pub signaled_at : Instant
  pub serving : Bool
  pub returned : Option Outcome

pub data Event : Type 0 where
  signaled : Event
  canceled : Event
  ticked : ℕ → Event
  handler_left : Event
  closer_returned : Event
  closers_chosen : Event
  done_chosen : Event
  serve_returned : Event
  received : Event

abbrev pub is_closing : Handler → Bool
is_closing listening = false
is_closing left = false
is_closing closing = true
is_closing (answering o) = true
is_closing answered = true

abbrev pub close_next : List ℕ → Service → Service
close_next [] s = s
close_next (c ∷ cs) s = record s { to_close = cs; closed = c ∷ s.closed }

-- context.WithTimeout, whose deadline is set for a timeout that is positive.
abbrev pub is_past : ℤ → Service → Bool
is_past (pos zero) s = false
is_past (pos (suc n)) s = leb (s.signaled_at + suc n) s.now
is_past (negsuc n) s = false

abbrev pub is_done : ℤ → Service → Bool
is_done timeout s = s.is_canceled || is_past timeout s

abbrev pub on_signal : Handler → Service → Service
on_signal listening s = record s { handler = closing; signaled_at = s.now }
on_signal left s = s
on_signal closing s = s
on_signal (answering o) s = s
on_signal answered s = s

abbrev pub on_left : Handler → Service → Service
on_left listening s = if s.is_canceled then record s { handler = left } else s
on_left left s = s
on_left closing s = s
on_left (answering o) s = s
on_left answered s = s

abbrev pub answer : Outcome → Handler → Service → Service
answer o listening s = s
answer o left s = s
answer o closing s = record s { handler = answering o }
answer o (answering p) s = s
answer o answered s = s

abbrev pub on_closed : Option Error → List ℕ → Service → Service
on_closed e [] s = answer (completed e) s.handler s
on_closed e (c ∷ cs) s = s

abbrev pub receive : Handler → Service → Service
receive listening s = s
receive left s = s
receive closing s = s
receive (answering o) s = record s { handler = answered; returned = some o }
receive answered s = s

module _ (text : ℕ → Bytes) (close_one : ℕ → Option Error) (a : ServeArgs) where
  -- The call of Serve.
  abbrev pub serve : Instant → Bool → Service
  serve now is_canceled = record {
    handler = listening;
    to_close = closers_of a;
    closed = [];
    is_canceled = is_canceled;
    now = now;
    signaled_at = now;
    serving = true;
    returned = none;
  }

  abbrev pub close_error : Option Error
  close_error = (close text close_one (closers_of a)).1

  unfoldable pub handle : Event → Service → Service
  handle signaled s = on_signal s.handler s
  handle canceled s = record s { is_canceled = true }
  handle (ticked d) s = record s { now = s.now + d }
  handle handler_left s = on_left s.handler s
  handle closer_returned s = if is_closing s.handler then close_next s.to_close s else s
  handle closers_chosen s = on_closed close_error s.to_close s
  handle done_chosen s = if is_done (timeout_of a) s then answer abandoned s.handler s else s
  handle serve_returned s = record s { serving = false }
  handle received s = if s.serving then s else receive s.handler s

  unfoldable pub run : List Event → Service → Service
  run [] s = s
  run (e ∷ es) s = run es (handle e s)

-- The calls of New, in their order: what each opens, or its error.
pub record Parts (E : Type 0) : Type 0 where
  pub cancel : ℕ
  pub sentry : Result E ℕ
  pub secrets : Result E ℕ
  pub tracing : Result E ℕ
  pub edge_context : Option E

-- New returns a Baseplate with these closers, or an error after it has closed those.
pub data Made (E : Type 0) : Type 0 where
  made : BatchCloser → Made E
  refused : BatchCloser → E → Made E

module _ {E : Type 0} where
  abbrev pub with_edge_context : Option E → BatchCloser → Made E
  with_edge_context none bc = made bc
  with_edge_context (some e) bc = refused bc e

  abbrev pub with_part : (BatchCloser → Made E) → Result E ℕ → BatchCloser → Made E
  with_part next (ok c) bc = next (add bc (c ∷ []))
  with_part next (err e) bc = refused bc e

  abbrev pub new_baseplate : Parts E → Made E
  new_baseplate p =
      with_part (with_part (with_part (with_edge_context p.edge_context) p.tracing) p.secrets)
        p.sentry (add (new []) (p.cancel ∷ []))

-- drainer.go: the atomic integer `closed`.
abbrev pub is_healthy : ℕ → Bool
is_healthy closed = closed == 0

abbrev pub close_drainer : ℕ → ℕ
close_drainer closed = 1
