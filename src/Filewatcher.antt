-- ===== src/Filewatcher.antt =====
-- filewatcher/v2/filewatcher.go: the options, and openAndParse.
-- T is the type of the parsed data, Tree that of a file system as a DirParser sees it. What the system answers
-- during one call of openAndParse is an argument, a Disk. The parser's panic is a result of its own.
pub mod New
pub mod Loop
pub mod Loads
pub mod Bounds
pub mod First
pub mod Parses
pub mod Delays
pub mod Legacy
pub mod Fakes
mod Tests
use baseplate_go.Common.{
  ℕ, ◌+◌, ◌*◌, ◌/◌, Bool, true, false, List, [], ◌∷◌, ◌++◌, Bytes, if◌then◌else◌,
}
use baseplate_go.Common.Int.{ℤ, pos, negsuc}
use baseplate_go.Std.Instant.{Instant, second}
use baseplate_go.Std.Int64.{wrap_64}
use baseplate_go.Std.Paths.{FilePath, dir}
use baseplate_go.Std.Results.{Result, ok, err, Fault, not_exist, failure}
use baseplate_go.Limitopen
use baseplate_go.Limitopen.{Effect, closed, open_failed, size_failed, over_limit, open_with_limit}

abbrev pub default_fs_events_delay : ℤ
default_fs_events_delay = pos second

abbrev pub default_polling_interval : ℤ
default_polling_interval = pos (30 * second)

abbrev pub default_initial_read_interval : ℤ
default_initial_read_interval = pos (second / 2)

-- 10 << 20
abbrev pub default_max_file_size : ℤ
default_max_file_size = pos 10_485_760

pub record Opts : Type 0 where
  pub fs_events_delay : ℤ
  pub polling_interval : ℤ
  pub initial_read_interval : ℤ
  pub file_size_limit : ℤ

-- var opt opts
abbrev pub zero_opts : Opts
zero_opts = record {
  fs_events_delay = pos 0;
  polling_interval = pos 0;
  initial_read_interval = pos 0;
  file_size_limit = pos 0;
}

-- Option of the source.
abbrev pub Setting : Type 0
Setting = Opts → Opts

abbrev pub with_options : List Setting → Setting
with_options [] o = o
with_options (opt ∷ options) o = with_options options (opt o)

abbrev pub with_fs_events_delay : ℤ → Setting
with_fs_events_delay delay o = record o { fs_events_delay = delay }

abbrev pub with_polling_interval : ℤ → Setting
with_polling_interval interval o = record o { polling_interval = interval }

abbrev pub with_initial_read_interval : ℤ → Setting
with_initial_read_interval interval o = record o { initial_read_interval = interval }

abbrev pub with_file_size_limit : ℤ → Setting
with_file_size_limit limit o = record o { file_size_limit = limit }

abbrev pub default_options : Setting
default_options = with_options (
    with_fs_events_delay default_fs_events_delay
    ∷ with_polling_interval default_polling_interval
    ∷ with_initial_read_interval default_initial_read_interval
    ∷ with_file_size_limit default_max_file_size
    ∷ [])

-- The head of New.
abbrev pub options_of : List Setting → Opts
options_of options = with_options (default_options ∷ with_options options ∷ []) zero_opts

abbrev pub times_10 : ℤ → ℤ
times_10 (pos n) = pos (n * 10)
times_10 (negsuc n) = negsuc (n * 10 + 9)

-- opt.fileSizeLimit * HardLimitMultiplier, in an int64.
abbrev pub hard_limit_of : ℤ → ℤ
hard_limit_of limit = wrap_64 (times_10 limit)

pub data Reader : Type 0 where
  file_reader : Bytes → Reader
  fake_directory_reader : FilePath → Reader

-- The error of fakeDirectoryReader.Read.
abbrev pub not_dir_parser : Fault
not_dir_parser = failure 0

-- Reading a reader to its end.
abbrev pub read_all : Reader → Result Fault Bytes
read_all (file_reader contents) = ok contents
read_all (fake_directory_reader path) = err not_dir_parser

pub data Parsed (T : Type 0) : Type 0 where
  parsed : T → Parsed T
  not_parsed : Fault → Parsed T
  panicked : Parsed T

abbrev pub Parser : Type 0 → Type 0 → Type 0
Parser T Tree = Tree → Reader → Parsed T

abbrev pub parsed_of : {T : Type 0} → Result Fault T → Parsed T
parsed_of (ok d) = parsed d
parsed_of (err e) = not_parsed e

-- WrapDirParser: the type assertion panics on any other reader.
abbrev pub wrap_dir_parser : {T Tree : Type 0} → (FilePath → Tree → Result Fault T) → Parser T Tree
wrap_dir_parser dp tree (file_reader contents) = panicked
wrap_dir_parser dp tree (fake_directory_reader path) = parsed_of (dp path tree)

pub data Error : Type 0 where
  stat_error : Fault → Error
  open_error : Limitopen.Error → Error
  parser_error : Fault → Error

abbrev pub is_missing : Fault → Bool
is_missing not_exist = true
is_missing (failure n) = false

-- errors.Is(err, fs.ErrNotExist): each message wraps its cause, but that of the hard limit has none.
abbrev pub is_not_exist : Error → Bool
is_not_exist (stat_error e) = is_missing e
is_not_exist (open_error (open_failed path e)) = is_missing e
is_not_exist (open_error (size_failed path e)) = is_missing e
is_not_exist (open_error (over_limit size limit path)) = false
is_not_exist (parser_error e) = is_missing e

pub record FileInfo : Type 0 where
  pub mod_time : Instant
  pub is_dir : Bool

-- os.Stat, the paths that filepath.Walk visits (with whether its error is nil), the opening of the file, and
-- the file system that the parser reads from.
pub record Disk (Tree : Type 0) : Type 0 where
  pub stat : Result Fault FileInfo
  pub walked : List (FilePath × Bool)
  pub opening : Limitopen.Answers
  pub tree : Tree

-- The data, the time of the file, and the files to watch.
pub data Outcome (T : Type 0) : Type 0 where
  loaded : T → Instant → List FilePath → Outcome T
  error : Error → Outcome T
  panics : Outcome T

-- filepath.Walk with a callback that never returns an error.
abbrev pub walk : List FilePath → List (FilePath × Bool) → List FilePath
walk files [] = files
walk files ((p, fine) ∷ visited) = walk (if fine then files ++ p ∷ [] else files) visited

abbrev pub outcome : {T : Type 0} → Instant → List FilePath → Parsed T → Outcome T
outcome mtime files (parsed d) = loaded d mtime files
outcome mtime files (not_parsed e) = error (parser_error e)
outcome mtime files panicked = panics

module _ {T Tree : Type 0} (path : FilePath) (parser : Parser T Tree) (limit hard_limit : ℤ) where
  -- The file is closed when openAndParse returns.
  abbrev pub parse_opened :
      Instant → Tree → Result Limitopen.Error Bytes × List Effect → Outcome T × List Effect
  parse_opened mtime tree (err e, done) = (error (open_error e), done)
  parse_opened mtime tree (ok contents, done) = (
    outcome mtime (dir path ∷ path ∷ []) (parser tree (file_reader contents)),
    done ++ closed path ∷ [],
  )

  abbrev pub parse_kind : Disk Tree → Instant → Bool → Outcome T × List Effect
  parse_kind disk mtime true = (
    outcome mtime (walk (dir path ∷ path ∷ []) disk.walked)
        (parser disk.tree (fake_directory_reader path)),
    [],
  )
  parse_kind disk mtime false =
      parse_opened mtime disk.tree (open_with_limit path limit hard_limit disk.opening)

  abbrev pub parse_found : Disk Tree → Result Fault FileInfo → Outcome T × List Effect
  parse_found disk (err e) = (error (stat_error e), [])
  parse_found disk (ok stats) = parse_kind disk stats.mod_time stats.is_dir

  unfoldable pub open_and_parse : Disk Tree → Outcome T × List Effect
  open_and_parse disk = parse_found disk disk.stat
