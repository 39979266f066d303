-- ===== src/Filewatcher/Delays.antt =====
-- Events and the timer in watcherLoop of filewatcher/v2/filewatcher.go.
use baseplate_go.Common.{ℕ, ◌≡◌, refl, sym, subst, Bool, true, false, List, [], ◌∷◌, if◌then◌else◌}
use baseplate_go.Filewatcher.{Outcome, loaded, error, panics}
use baseplate_go.Filewatcher.Loop.{
  Config, DataAt, Timer, no_timer, armed, expired, Watcher, Event, closes, quits, watcher_error,
  fs_event, ticks, fires, on_event, handle, Runs, here, next, IsDue, IsPossible,
}

-- The data after a reload: the new, or what was there.
abbrev pub after_reload : {T : Type 0} → Outcome T → DataAt T → DataAt T
after_reload (loaded d mtime files) old = record { value = d; mtime = mtime }
after_reload (error e) old = old
after_reload panics old = old

abbrev pub IsIdle : Timer → Type 0
IsIdle no_timer = Unit {0}
IsIdle (armed due) = ⊥
IsIdle expired = Unit {0}

module _ {T Tree State : Type 0} (c : Config T Tree State) where
  -- The loop meets these events, with their instants, one after the other.
  abbrev pub burst : List (ℕ × ℕ) → Watcher T State → Watcher T State
  burst [] w = w
  burst ((now, op) ∷ es) w = burst es (on_event c now op w)

  -- All but the timer.
  abbrev SameBut : Watcher T State → Watcher T State → Type 0
  SameBut w u = (u.stored ≡ w.stored) × (u.done ≡ w.done)

  -- The context is done, and no reload is due.
  record IsQuiet (x : DataAt T) (u : Watcher T State) : Type 0 where
    still_done : u.done ≡ true
    idle : IsIdle u.timer
    kept : u.stored ≡ x

  -- A timer that has not been set does not go off.
  fires-not-IsPossible : (now : ℕ) (t : Timer) → IsIdle t → IsDue c now t → ⊥
  fires-not-IsPossible now no_timer i d = d
  fires-not-IsPossible now (armed due) i d = i
  fires-not-IsPossible now expired i d = d

  if-IsQuiet :
      (x : DataAt T) (b : Bool) (u v : Watcher T State)
      → b ≡ true
      → IsQuiet x u
      → IsQuiet x (if b then u else v)
  if-IsQuiet x true u v h q = q
  if-IsQuiet x false u v h q = absurd (cc h)

  handle-IsQuiet :
      (x : DataAt T) (e : Event Tree) (u : Watcher T State)
      → IsQuiet x u
      → IsPossible c e u
      → IsQuiet x (handle c e u)
  handle-IsQuiet x closes u q p = record { still_done = refl; idle = q.idle; kept = q.kept }
  handle-IsQuiet x quits u q p = record { still_done = q.still_done; idle = q.idle; kept = q.kept }
  handle-IsQuiet x watcher_error u q p = q
  handle-IsQuiet x (fs_event now op) u q p = if-IsQuiet x u.done u _ q.still_done q
  handle-IsQuiet x (ticks m disk) u q p = if-IsQuiet x u.done u _ q.still_done q
  handle-IsQuiet x (fires now disk) u q p = absurd (fires-not-IsPossible now u.timer q.idle p)

  Runs-IsQuiet :
      {w u : Watcher T State} {es : List (Event Tree)} (x : DataAt T)
      → IsQuiet x w
      → Runs c w es u
      → IsQuiet x u
  Runs-IsQuiet x q here = q
  Runs-IsQuiet x q (next {u} {v} e r up possible eq) =
      subst (IsQuiet x) (sym eq) (handle-IsQuiet x e u (Runs-IsQuiet x q r) possible)

  -- Once the context is done and no reload is set on the timer, no run changes the data or its
  -- time.
  pub stored_after_close :
      {w u : Watcher T State} {es : List (Event Tree)}
      → w.done ≡ true
      → IsIdle w.timer
      → Runs c w es u
      → u.stored ≡ w.stored
  stored_after_close {w} h i r =
      (Runs-IsQuiet w.stored (record { still_done = h; idle = i; kept = refl }) r).kept
