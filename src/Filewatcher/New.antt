-- ===== src/Filewatcher/New.antt =====
-- New of filewatcher/v2/filewatcher.go, up to the start of the loop.
-- A round of the first loop is whether the context is done at its select, and the disk that openAndParse
-- meets. Where the rounds given are used up, New still waits.
use baseplate_go.Common.{Bool, true, false, List, [], ◌∷◌, Option, none, some, if◌then◌else◌}
use baseplate_go.Common.Int.{ℤ}
use baseplate_go.Std.Instant.{Instant}
use baseplate_go.Std.Paths.{FilePath}
use baseplate_go.Std.Results.{Result, ok, err, Fault}
use baseplate_go.Filewatcher.{
  Parser, Error, is_not_exist, Disk, Outcome, loaded, error, panics, open_and_parse, Setting,
  options_of, hard_limit_of,
}
use baseplate_go.Filewatcher.Loop.{Fsnotify, Config, Watcher, no_timer}

pub record Round (Tree : Type 0) : Type 0 where
  pub done : Bool
  pub disk : Disk Tree

pub data First (T : Type 0) : Type 0 where
  waiting : Option Error → First T
  cancelled : Option Error → First T
  fails : Error → First T
  crashes : First T
  finds : T → Instant → List FilePath → First T

module _ {T Tree : Type 0} (path : FilePath) (parser : Parser T Tree) (limit hard_limit : ℤ) where
  abbrev pub after_read : (Error → First T) → Outcome T → First T
  after_read again (loaded d mtime files) = finds d mtime files
  after_read again (error e) = if is_not_exist e then again e else fails e
  after_read again panics = crashes

  -- The first loop, with lastErr.
  unfoldable pub first_read : Option Error → List (Round Tree) → First T
  first_read last_err [] = waiting last_err
  first_read last_err (r ∷ rounds) =
      if r.done
      then cancelled last_err
      else after_read (λ e. first_read (some e) rounds)
          (open_and_parse path parser limit hard_limit r.disk).0

pub data NewError : Type 0 where
  context_canceled : Option Error → NewError
  not_loaded : Error → NewError
  no_watcher : Fault → NewError
  not_watched : FilePath → Fault → NewError

pub data Started (T State : Type 0) : Type 0 where
  still_waits : Started T State
  crashes_at_once : Started T State
  returns_error : NewError → Started T State
  starts : Watcher T State → Started T State

module _ {State : Type 0} (notifier : Fsnotify State) where
  abbrev pub added :
      FilePath → (State → Result NewError State) → Option Fault × State → Result NewError State
  added p rest (some e, s) = err (not_watched p e)
  added p rest (none, s) = rest s

  -- The loop over the files: the first that cannot be watched ends it.
  abbrev pub watch_files : List FilePath → State → Result NewError State
  watch_files [] s = ok s
  watch_files (p ∷ ps) s = added p (λ s'. watch_files ps s') (notifier.add p s)

  abbrev pub result : {T : Type 0} → T → Instant → Result NewError State → Started T State
  result d mtime (err e) = returns_error e
  result d mtime (ok s) = starts (record {
    stored = record { value = d; mtime = mtime };
    done = false;
    running = true;
    crashed = false;
    watches = s;
    timer = no_timer;
  })

  abbrev pub watch_new :
      {T : Type 0} → T → Instant → List FilePath → Result Fault State → Started T State
  watch_new d mtime files (err e) = returns_error (no_watcher e)
  watch_new d mtime files (ok s) = result d mtime (watch_files files s)

  abbrev pub start : {T : Type 0} → Result Fault State → First T → Started T State
  start created (waiting e) = still_waits
  start created (cancelled e) = returns_error (context_canceled e)
  start created (fails e) = returns_error (not_loaded e)
  start created crashes = crashes_at_once
  start created (finds d mtime files) = watch_new d mtime files created

  -- The arguments with which New starts the loop.
  abbrev pub config_of :
      {T Tree : Type 0} → FilePath → Parser T Tree → List Setting → Config T Tree State
  config_of path parser options =
      let opt = options_of options in
      record {
        path = path;
        parser = parser;
        soft_limit = opt.file_size_limit;
        hard_limit = hard_limit_of opt.file_size_limit;
        polling_interval = opt.polling_interval;
        fs_events_delay = opt.fs_events_delay;
        fsnotify = notifier;
      }

  -- `created` is what fsnotify.NewWatcher returns.
  abbrev pub new :
      {T Tree : Type 0}
      → FilePath
      → Parser T Tree
      → List Setting
      → List (Round Tree)
      → Result Fault State
      → Started T State
  new path parser options rounds created =
      let limit = (options_of options).file_size_limit in
      start created (first_read path parser limit (hard_limit_of limit) none rounds)
