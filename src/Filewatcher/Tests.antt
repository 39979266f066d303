-- ===== src/Filewatcher/Tests.antt =====
-- Tests of filewatcher/v2/filewatcher.go: a file of text, read as it is.
use baseplate_go.Common.{
  ℕ, ◌+◌, ◌≡◌, ◌⊎◌, inr, refl, true, false, List, [], ◌∷◌, Bytes, codes, none, some, arith, length,
}
use baseplate_go.Common.Int.{pos, negsuc}
use baseplate_go.Std.Instant.{second}
use baseplate_go.Std.Int64.{wrap_64}
use baseplate_go.Std.Paths.{FilePath}
use baseplate_go.Std.Results.{ok, err, not_exist, failure}
use baseplate_go.Limitopen.{open_with_limit}
use baseplate_go.Filewatcher.{
  read_all, parsed_of, Parser, FileInfo, Disk, loaded, error, open_and_parse, Setting, options_of,
  with_polling_interval, hard_limit_of, stat_error, wrap_dir_parser, panics, parser_error,
  not_dir_parser,
}
use baseplate_go.Filewatcher.Loop.{
  Fsnotify, Config, Watcher, no_timer, closes, fs_event, fires, write, force_reload, handle, fire,
  on_event, Runs, here, next, get, create, is_interesting,
}
use baseplate_go.Filewatcher.New.{Round, first_read, finds, cancelled, config_of}
use baseplate_go.Filewatcher.Loads.{GivenBy}
use baseplate_go.Filewatcher.First.{first_read_lem, FromRounds, new_served}
use baseplate_go.Filewatcher.Delays.{stored_after_close}
use baseplate_go.Filewatcher.Bounds.{Balanced, MadeOf, open_and_parse-Balanced, parsed_within}

abbrev path : FilePath
path = "config" ∷ "etc" ∷ []

abbrev text_parser : Parser Bytes (Unit {0})
text_parser tree r = parsed_of (read_all r)

abbrev file_info : ℕ → FileInfo
file_info mtime = record { mod_time = mtime; is_dir = false }

abbrev file_of : Bytes → ℕ → Disk (Unit {0})
file_of text mtime = record {
  stat = ok (file_info mtime);
  walked = [];
  opening = record { open_error = none; size = ok (pos (length text)); contents = text };
  tree = tt;
}

abbrev missing_file : Disk (Unit {0})
missing_file = record {
  stat = err not_exist;
  walked = [];
  opening = record { open_error = some not_exist; size = err (failure 1); contents = [] };
  tree = tt;
}

-- A watcher that is the list of what it watches.
abbrev lister : Fsnotify (List FilePath)
lister = record {
  add = λ p s. (none, p ∷ s);
  remove = λ p s. (none, []);
  watch_list = λ s. s;
  close = λ s. [];
}

abbrev options : List Setting
options = with_polling_interval (negsuc 0) ∷ []

polling_disabled : options_of options ≡ record {
  fs_events_delay = pos second;
  polling_interval = negsuc 0;
  initial_read_interval = pos 500_000_000;
  file_size_limit = pos 10_485_760;
}
polling_disabled = refl

abbrev config : Config Bytes (Unit {0}) (List FilePath)
config = record {
  path = path;
  parser = text_parser;
  soft_limit = pos 4;
  hard_limit = pos 40;
  polling_interval = pos 30;
  fs_events_delay = pos 5;
  fsnotify = lister;
}

abbrev rounds : List (Round (Unit {0}))
rounds =
    record { done = false; disk = missing_file }
    ∷ record { done = false; disk = file_of (codes "one") 7 }
    ∷ []

first_read_lem_example :
    first_read path text_parser (pos 4) (pos 40) none rounds
    ≡ finds (codes "one") 7 (("etc" ∷ []) ∷ path ∷ [])
unfolding open_and_parse open_with_limit
first_read_lem_example =
    first_read_lem path text_parser (pos 4) (pos 40)
      (record { done = false; disk = missing_file } ∷ [])
      (record { done = false; disk = file_of (codes "one") 7 }) [] ((refl, refl), tt) (inr tt)

given_up :
    first_read path text_parser (pos 4) (pos 40) none (
      record { done = false; disk = missing_file }
      ∷ record { done = true; disk = missing_file }
      ∷ [])
    ≡ cancelled (some (stat_error not_exist))
unfolding first_read open_and_parse
given_up = refl

-- A plain parser for a directory gets an error from its reader; a wrapped one panics at a file.
abbrev a_directory : Disk (Unit {0})
a_directory = record {
  stat = ok (record { mod_time = 3; is_dir = true });
  walked = (path, true) ∷ ("x" ∷ path, true) ∷ ("y" ∷ path, false) ∷ [];
  opening = record { open_error = none; size = ok (pos 0); contents = [] };
  tree = tt;
}

wrong_parser :
    (open_and_parse path text_parser (pos 4) (pos 40) a_directory).0
    ≡ error (parser_error not_dir_parser)
unfolding open_and_parse
wrong_parser = refl

directory_files :
    (open_and_parse path
      (wrap_dir_parser (λ p tree. ok (codes "d")))
      (pos 4)
      (pos 40)
      a_directory).0
    ≡ loaded (codes "d") 3 (("etc" ∷ []) ∷ path ∷ path ∷ ("x" ∷ path) ∷ [])
unfolding open_and_parse
directory_files = refl

file_for_dir_parser :
    (open_and_parse path
      (wrap_dir_parser (λ p tree. ok (codes "d")))
      (pos 4)
      (pos 40)
      (file_of (codes "one") 7)).0
    ≡ panics
unfolding open_and_parse open_with_limit
file_for_dir_parser = refl

abbrev watcher : Watcher Bytes (List FilePath)
watcher = record {
  stored = record { value = codes "one"; mtime = 7 };
  done = false;
  running = true;
  crashed = false;
  watches = path ∷ [];
  timer = no_timer;
}

two_served :
    get (fire config (file_of (codes "two") 9) (on_event config 11 write watcher)) ≡ codes "two"
unfolding force_reload open_and_parse open_with_limit
two_served = refl

-- The timer that is set goes off after Close, too: this is a run, and Get changes in it.
abbrev after_all : Watcher Bytes (List FilePath)
after_all =
    fire config (file_of (codes "two") 9) (handle config closes (on_event config 11 write watcher))

closed_then_reloaded :
    Runs config watcher
      (fires 16 (file_of (codes "two") 9) ∷ closes ∷ fs_event 11 write ∷ [])
      after_all
closed_then_reloaded =
    next (fires 16 (file_of (codes "two") 9))
      (next closes (next (fs_event 11 write) here refl refl refl) refl tt refl) refl (omega arith)
      refl

closed_and_changed : get after_all ≡ codes "two"
unfolding force_reload open_and_parse open_with_limit
closed_and_changed = refl

-- Events of more than one kind are ignored.
two_kinds : is_interesting (write + create) ≡ false
two_kinds = refl

abbrev closed_watcher : Watcher Bytes (List FilePath)
closed_watcher = record watcher { done = true }

stored_after_close_case : closed_watcher.stored ≡ closed_watcher.stored
stored_after_close_case =
    stored_after_close config {w = closed_watcher} {u = closed_watcher} refl tt
      (next (fs_event 11 write) here refl refl refl)

open_and_parse-Balanced_example :
    Balanced (open_and_parse path text_parser (pos 1) (pos 2) (file_of (codes "one") 7)).1
open_and_parse-Balanced_example =
    open_and_parse-Balanced path text_parser (pos 1) (pos 2) (file_of (codes "one") 7)

parsed_within_case : MadeOf path text_parser (pos 4) (hard_limit_of (pos 4)) tt (codes "one") 40
unfolding open_and_parse open_with_limit wrap_64
parsed_within_case =
    parsed_within path text_parser 4 (file_of (codes "one") 7) (file_info 7) 7
      (("etc" ∷ []) ∷ path ∷ []) (omega arith) (omega arith) refl refl refl

abbrev started : Watcher Bytes (List FilePath)
started = record watcher { watches = path ∷ ("etc" ∷ []) ∷ [] }

new_served_example :
    GivenBy (config_of lister path text_parser options) started.stored (closes ∷ [])
    ⊎ FromRounds path text_parser (pos 10_485_760) (pos 104_857_600) started.stored rounds
unfolding first_read open_and_parse open_with_limit wrap_64
new_served_example =
    new_served path text_parser options lister rounds (ok []) {w = started}
      {u = record started { done = true }} refl (next closes here refl tt refl)
