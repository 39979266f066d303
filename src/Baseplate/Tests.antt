-- ===== src/Baseplate/Tests.antt =====
-- A server with a drainer before it and a store after it.
use baseplate_go.Common.{ℕ, ◌≡◌, refl, true, false, List, [], ◌∷◌, Option, none, Bytes, codes}
use baseplate_go.Common.Int.{pos, negsuc}
use baseplate_go.Std.Results.{ok, err}
use baseplate_go.Errorsbp.Batch.{Error}
use baseplate_go.Batchcloser.{add, new}
use baseplate_go.Baseplate.{
  ServeArgs, closers_of, timeout_of, abandoned, Event, signaled, canceled, ticked, handler_left,
  closer_returned, closers_chosen, done_chosen, serve_returned, received, serve, handle, run,
  refused, new_baseplate, is_healthy, close_drainer,
}
use baseplate_go.Baseplate.Shutdown.{Explains, run-Explains}
use baseplate_go.Baseplate.Leaves.{canceled_never_returns}

abbrev text : ℕ → Bytes
text c = codes "c"

abbrev close_one : ℕ → Option Error
close_one c = none

abbrev service : ServeArgs
service = record {
  sleeps = 0;
  server = 5;
  pre_shutdown = 1 ∷ [];
  post_shutdown = 7 ∷ [];
  stop_timeout = pos 10;
  stop_delay = negsuc 0;
}

abbrev too_slow : List Event
too_slow =
    signaled
    ∷ closer_returned
    ∷ closers_chosen
    ∷ done_chosen
    ∷ ticked 10
    ∷ done_chosen
    ∷ received
    ∷ serve_returned
    ∷ received
    ∷ []

run-Explains_example :
    ((run text close_one service too_slow (serve text close_one service 100 false)).serving ≡ false)
    × Explains text close_one service abandoned
        (run text close_one service too_slow (serve text close_one service 100 false))
unfolding run handle add
run-Explains_example = run-Explains text close_one service 100 false too_slow abandoned refl

canceled_never_returns_example :
    (run text close_one service
      (canceled ∷ handler_left ∷ too_slow)
      (serve text close_one service 100 false)).returned
    ≡ none
canceled_never_returns_example = canceled_never_returns text close_one service 100 too_slow

order : closers_of (record service { stop_delay = pos 0 }) ≡ 0 ∷ 1 ∷ 5 ∷ 7 ∷ []
unfolding add
order = refl

default_timeout : timeout_of (record service { stop_timeout = pos 0 }) ≡ pos 30_000_000_000
default_timeout = refl

refused_new :
    new_baseplate {E = ℕ}
      (record { cancel = 1; sentry = ok 2; secrets = err 9; tracing = ok 4; edge_context = none })
    ≡ refused (1 ∷ 2 ∷ []) 9
unfolding new add
refused_new = refl

drained : (is_healthy 0 ≡ true) × (is_healthy (close_drainer 0) ≡ false)
drained = (refl, refl)
