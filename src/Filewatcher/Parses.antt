-- ===== src/Filewatcher/Parses.antt =====
-- Where the data of a watcher comes from (filewatcher/v2/filewatcher.go): a result of the parser.
use baseplate_go.Common.{◌≡◌, ap, inl, inr, Bool, true, false, List, [], ◌∷◌, Bytes}
use baseplate_go.Common.Int.{ℤ}
use baseplate_go.Std.Instant.{Instant}
use baseplate_go.Std.Paths.{FilePath, dir}
use baseplate_go.Std.Results.{Result, ok, err, Fault}
use baseplate_go.Limitopen
use baseplate_go.Limitopen.{Effect, open_with_limit}
use baseplate_go.Filewatcher.{
  Reader, file_reader, fake_directory_reader, Parsed, parsed, not_parsed, panicked, Parser,
  FileInfo, Disk, outcome, walk, parse_opened, parse_kind, parse_found, open_and_parse, Setting,
  options_of, hard_limit_of,
}
use baseplate_go.Filewatcher.Loop.{
  Fsnotify, Config, DataAt, Watcher, Event, closes, quits, watcher_error, fs_event, ticks, fires,
  Runs, get,
}
use baseplate_go.Filewatcher.Loads.{Loads, Gives, GivenBy}
use baseplate_go.Filewatcher.New.{Round, starts, config_of, new}
use baseplate_go.Filewatcher.First.{FromRounds, new_served}

module _ {T Tree : Type 0} (path : FilePath) (parser : Parser T Tree) where
  -- The parser returns the value for some reader.
  abbrev pub Parses : T → Type 0
  Parses d = (tree : Tree) × (r : Reader) × (parser tree r ≡ parsed d)

  outcome-parsed :
      (mtime : Instant) (files : List FilePath) (p : Parsed T) (x : DataAt T)
      → Loads (outcome mtime files p) x
      → p ≡ parsed x.value
  outcome-parsed mtime files (parsed d) x h = ap (λ (y : DataAt T). parsed y.value) h
  outcome-parsed mtime files (not_parsed e) x h = absurd h
  outcome-parsed mtime files panicked x h = absurd h

  module _ (limit hard : ℤ) where
    opened-Parses :
        (mtime : Instant) (tree : Tree) (r : Result Limitopen.Error Bytes) (done : List Effect)
        (x : DataAt T)
        → Loads (parse_opened path parser limit hard mtime tree (r, done)).0 x
        → Parses x.value
    opened-Parses mtime tree (err e) done x h = absurd h
    opened-Parses mtime tree (ok contents) done x h = (
      tree,
      file_reader contents,
      outcome-parsed mtime (dir path ∷ path ∷ []) (parser tree (file_reader contents)) x h,
    )

    kind-Parses :
        (disk : Disk Tree) (mtime : Instant) (b : Bool) (x : DataAt T)
        → Loads (parse_kind path parser limit hard disk mtime b).0 x
        → Parses x.value
    kind-Parses disk mtime true x h = (
      disk.tree,
      fake_directory_reader path,
      outcome-parsed mtime (walk (dir path ∷ path ∷ []) disk.walked)
          (parser disk.tree (fake_directory_reader path)) x h,
    )
    kind-Parses disk mtime false x h =
        let (r, done) = open_with_limit path limit hard disk.opening in
        opened-Parses mtime disk.tree r done x h

    found-Parses :
        (disk : Disk Tree) (stat : Result Fault FileInfo) (x : DataAt T)
        → Loads (parse_found path parser limit hard disk stat).0 x
        → Parses x.value
    found-Parses disk (err e) x h = absurd h
    found-Parses disk (ok info) x h = kind-Parses disk info.mod_time info.is_dir x h

    open_and_parse-Parses :
        (disk : Disk Tree) (x : DataAt T)
        → Loads (open_and_parse path parser limit hard disk).0 x
        → Parses x.value
    unfolding open_and_parse
    open_and_parse-Parses disk x h = found-Parses disk disk.stat x h

    FromRounds-Parses :
        (rounds : List (Round Tree)) (x : DataAt T)
        → FromRounds path parser limit hard x rounds
        → Parses x.value
    FromRounds-Parses [] x h = absurd h
    FromRounds-Parses (r ∷ rounds) x (inl h) = open_and_parse-Parses r.disk x h
    FromRounds-Parses (r ∷ rounds) x (inr h) = FromRounds-Parses rounds x h

  module _ {State : Type 0} (options : List Setting) (notifier : Fsnotify State) where
    abbrev limit_of : ℤ
    limit_of = (options_of options).file_size_limit

    abbrev config : Config T Tree State
    config = config_of notifier path parser options

    Gives-Parses : (x : DataAt T) (e : Event Tree) → Gives config x e → Parses x.value
    Gives-Parses x closes h = absurd h
    Gives-Parses x quits h = absurd h
    Gives-Parses x watcher_error h = absurd h
    Gives-Parses x (fs_event now op) h = absurd h
    Gives-Parses x (ticks mtime disk) h =
        open_and_parse-Parses limit_of (hard_limit_of limit_of) disk x h
    Gives-Parses x (fires now disk) h =
        open_and_parse-Parses limit_of (hard_limit_of limit_of) disk x h

    GivenBy-Parses : (x : DataAt T) (es : List (Event Tree)) → GivenBy config x es → Parses x.value
    GivenBy-Parses x [] h = absurd h
    GivenBy-Parses x (e ∷ es) (inl h) = Gives-Parses x e h
    GivenBy-Parses x (e ∷ es) (inr h) = GivenBy-Parses x es h

    pub get-Parses :
        (rounds : List (Round Tree)) (created : Result Fault State) {w u : Watcher T State}
        {es : List (Event Tree)}
        → new notifier path parser options rounds created ≡ starts w
        → Runs config w es u
        → Parses (get u)
    get-Parses rounds created {w} {u} {es} h r =
        elim (new_served path parser options notifier rounds created h r) [
          | inl given ↦ GivenBy-Parses u.stored es given
          | inr found ↦ FromRounds-Parses limit_of (hard_limit_of limit_of) rounds u.stored found
        ]
