-- ===== src/Filewatcher/Loop.antt =====
-- Result and watcherLoop of filewatcher/v2/filewatcher.go.
-- The watcher of fsnotify is the argument Fsnotify. An event is one step of the program: a call of Close, one
-- round of the loop by the case that its select takes, or the timer's call of forceReload. The lock of
-- forceReload makes each of its runs one step; the check of reload and its call of it are one step here.
-- Instants of events are numbers, in nanoseconds.
use baseplate_go.Common.{
  ℕ, ◌+◌, ◌≤◌, ◌≡◌, ◌||◌, Bool, true, false, List, [], ◌∷◌, Option, ◌==◌, if◌then◌else◌,
}
use baseplate_go.Common.Int.{ℤ, pos, pos_part, ◌<ℤ◌}
use baseplate_go.Std.Instant.{Instant, before}
use baseplate_go.Std.Paths.{FilePath}
use baseplate_go.Std.Results.{Result, ok, err, Fault}
use baseplate_go.Filewatcher.{Parser, Disk, Outcome, loaded, error, panics, open_and_parse}

pub record Fsnotify (State : Type 0) : Type 0 where
  pub add : FilePath → State → Option Fault × State
  pub remove : FilePath → State → Option Fault × State
  pub watch_list : State → List FilePath
  pub close : State → State

-- The arguments of watcherLoop.
pub record Config (T Tree State : Type 0) : Type 0 where
  pub path : FilePath
  pub parser : Parser T Tree
  pub soft_limit : ℤ
  pub hard_limit : ℤ
  pub polling_interval : ℤ
  pub fs_events_delay : ℤ
  pub fsnotify : Fsnotify State

pub record DataAt (T : Type 0) : Type 0 where
  pub value : T
  pub mtime : Instant

-- The variable `timer`: nil, to go off at an instant, or gone off.
pub data Timer : Type 0 where
  no_timer : Timer
  armed : ℕ → Timer
  expired : Timer

-- The Result, with the state of its context, its loop, the fsnotify watcher and the timer.
pub record Watcher (T State : Type 0) : Type 0 where
  pub stored : DataAt T
  pub done : Bool
  pub running : Bool
  pub crashed : Bool
  pub watches : State
  pub timer : Timer

abbrev pub get : {T State : Type 0} → Watcher T State → T
get w = w.stored.value

-- Close: cancels the context.
abbrev pub close : {T State : Type 0} → Watcher T State → Watcher T State
close w = record w { done = true }

-- fsnotify.Op: one bit each.
abbrev pub create : ℕ
create = 1

abbrev pub write : ℕ
write = 2

abbrev pub remove : ℕ
remove = 4

abbrev pub rename : ℕ
rename = 8

-- The cases of `switch ev.Op`.
abbrev pub is_interesting : ℕ → Bool
is_interesting op = op == create || op == write || op == rename || op == remove

pub data Event (Tree : Type 0) : Type 0 where
  closes : Event Tree
  quits : Event Tree
  watcher_error : Event Tree
  fs_event : ℕ → ℕ → Event Tree
  ticks : Result Fault Instant → Disk Tree → Event Tree
  fires : ℕ → Disk Tree → Event Tree

module _ {T Tree State : Type 0} (c : Config T Tree State) where
  abbrev pub remove_all : List FilePath → State → State
  remove_all [] s = s
  remove_all (p ∷ ps) s = remove_all ps (c.fsnotify.remove p s).1

  -- An error is logged.
  abbrev pub add_all : List FilePath → State → State
  add_all [] s = s
  add_all (p ∷ ps) s = add_all ps (c.fsnotify.add p s).1

  abbrev pub store : Outcome T → Watcher T State → Watcher T State
  store (loaded d mtime files) w = record w {
    stored = record { value = d; mtime = mtime };
    watches = add_all files (remove_all (c.fsnotify.watch_list w.watches) w.watches);
  }
  store (error e) w = w
  store panics w = record w { crashed = true }

  unfoldable pub force_reload : Disk Tree → Watcher T State → Watcher T State
  force_reload disk w = store (open_and_parse c.path c.parser c.soft_limit c.hard_limit disk).0 w

  abbrev pub reload : Result Fault Instant → Disk Tree → Watcher T State → Watcher T State
  reload (err e) disk w = w
  reload (ok mtime) disk w = if before w.stored.mtime mtime then force_reload disk w else w

  -- time.AfterFunc for the first, Reset for the others.
  abbrev pub schedule : ℕ → Watcher T State → Watcher T State
  schedule now w = record w { timer = armed (now + pos_part c.fs_events_delay) }

  abbrev pub on_event : ℕ → ℕ → Watcher T State → Watcher T State
  on_event now op w = if w.done then w else if is_interesting op then schedule now w else w

  abbrev pub on_tick : Result Fault Instant → Disk Tree → Watcher T State → Watcher T State
  on_tick mtime disk w = if w.done then w else reload mtime disk w

  abbrev pub quit : Watcher T State → Watcher T State
  quit w = record w { running = false; watches = c.fsnotify.close w.watches }

  abbrev pub fire : Disk Tree → Watcher T State → Watcher T State
  fire disk w = force_reload disk (record w { timer = expired })

  abbrev pub handle : Event Tree → Watcher T State → Watcher T State
  handle closes w = close w
  handle quits w = quit w
  handle watcher_error w = w
  handle (fs_event now op) w = on_event now op w
  handle (ticks mtime disk) w = on_tick mtime disk w
  handle (fires now disk) w = fire disk w

  -- A timer goes off when its instant has come.
  abbrev pub IsDue : ℕ → Timer → Type 0
  IsDue now no_timer = ⊥
  IsDue now (armed due) = due ≤ now
  IsDue now expired = ⊥

  -- When an event can come: the loop takes a case only while it runs, and there is no ticker without an
  -- interval.
  abbrev pub IsPossible : Event Tree → Watcher T State → Type 0
  IsPossible closes w = Unit {0}
  IsPossible quits w = (w.running ≡ true) × (w.done ≡ true)
  IsPossible watcher_error w = w.running ≡ true
  IsPossible (fs_event now op) w = w.running ≡ true
  IsPossible (ticks mtime disk) w = (w.running ≡ true) × (pos 0 <ℤ c.polling_interval)
  IsPossible (fires now disk) w = IsDue now w.timer

  -- The events of a run, the latest first.
  pub data Runs (w : Watcher T State) : List (Event Tree) → Watcher T State → Type 0 where
    here : Runs w [] w
    next :
        {u v : Watcher T State} {es : List (Event Tree)} (e : Event Tree)
        → Runs w es u
        → u.crashed ≡ false
        → IsPossible e u
        → v ≡ handle e u
        → Runs w (e ∷ es) v
