-- ===== src/Filewatcher/Legacy.antt =====
-- filewatcher/filewatcher.go: the first version of the package, on top of the second.
use baseplate_go.Common.{
  ◌≡◌, refl, Bool, true, false, not, ◌&&◌, List, [], ◌∷◌, ◌++◌, if◌then◌else◌,
}
use baseplate_go.Common.Int.{ℤ, pos, ltb_ℤ}
use baseplate_go.Std.Paths.{FilePath}
use baseplate_go.Std.Results.{Result, Fault}
use baseplate_go.Filewatcher.{
  Parser, Setting, with_initial_read_interval, with_file_size_limit, with_polling_interval,
  with_fs_events_delay, options_of, default_max_file_size, default_polling_interval,
  default_fs_events_delay,
}
use baseplate_go.Filewatcher.Loop
use baseplate_go.Filewatcher.Loop.{Fsnotify, Watcher}
use baseplate_go.Filewatcher.New
use baseplate_go.Filewatcher.New.{Round, Started}

-- Without the parser and the logger.
pub record Config : Type 0 where
  pub path : FilePath
  pub max_file_size : ℤ
  pub polling_interval : ℤ
  pub fs_events_delay : ℤ

abbrev pub is_zero : ℤ → Bool
is_zero z = not (ltb_ℤ z (pos 0)) && not (ltb_ℤ (pos 0) z)

abbrev pub option_if : Bool → Setting → List Setting
option_if b opt = if b then opt ∷ [] else []

-- The options that New hands on; the first argument is the variable InitialReadInterval.
abbrev pub settings : ℤ → Config → List Setting
settings initial_read_interval cfg =
    with_initial_read_interval initial_read_interval
      ∷ option_if (ltb_ℤ (pos 0) cfg.max_file_size) (with_file_size_limit cfg.max_file_size)
    ++ (option_if (not (is_zero cfg.polling_interval)) (with_polling_interval cfg.polling_interval)
        ++ option_if (ltb_ℤ (pos 0) cfg.fs_events_delay) (with_fs_events_delay cfg.fs_events_delay))

abbrev pub new :
    {T Tree State : Type 0}
    → Fsnotify State
    → ℤ
    → Parser T Tree
    → Config
    → List (Round Tree)
    → Result Fault State
    → Started T State
new notifier initial_read_interval parser cfg rounds created =
    New.new notifier cfg.path parser (settings initial_read_interval cfg) rounds created

-- Stop
abbrev pub stop : {T State : Type 0} → Watcher T State → Watcher T State
stop w = Loop.close w

chosen :
    (b c d : Bool) (i m p e : ℤ)
    → options_of (
        with_initial_read_interval i ∷ option_if b (with_file_size_limit m)
        ++ (option_if (not c) (with_polling_interval p) ++ option_if d (with_fs_events_delay e)))
      ≡ record {
        fs_events_delay = if d then e else default_fs_events_delay;
        polling_interval = if c then default_polling_interval else p;
        initial_read_interval = i;
        file_size_limit = if b then m else default_max_file_size;
      }
chosen true true true i m p e = refl
chosen true true false i m p e = refl
chosen true false true i m p e = refl
chosen true false false i m p e = refl
chosen false true true i m p e = refl
chosen false true false i m p e = refl
chosen false false true i m p e = refl
chosen false false false i m p e = refl

-- What the second version makes of the configuration: a limit or a delay that is not positive, and an
-- interval of zero, are the default.
pub settings_lem :
    (initial : ℤ) (cfg : Config)
    → options_of (settings initial cfg) ≡ record {
      fs_events_delay =
          if ltb_ℤ (pos 0) cfg.fs_events_delay
          then cfg.fs_events_delay
          else default_fs_events_delay;
      polling_interval =
          if is_zero cfg.polling_interval then default_polling_interval else cfg.polling_interval;
      initial_read_interval = initial;
      file_size_limit =
          if ltb_ℤ (pos 0) cfg.max_file_size then cfg.max_file_size else default_max_file_size;
    }
settings_lem initial cfg =
    chosen (ltb_ℤ (pos 0) cfg.max_file_size) (is_zero cfg.polling_interval)
      (ltb_ℤ (pos 0) cfg.fs_events_delay) initial cfg.max_file_size cfg.polling_interval
      cfg.fs_events_delay
