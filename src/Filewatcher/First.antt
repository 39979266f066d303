-- ===== src/Filewatcher/First.antt =====
-- How the first loop of New (filewatcher/v2/filewatcher.go) ends.
use baseplate_go.Common.{
  ◌≡◌, refl, sym, subst, ◌∙◌, ◌⊎◌, inl, inr, Bool, true, false, List, [], ◌∷◌, ◌++◌, Option, none,
  some, All, if◌then◌else◌,
}
use baseplate_go.Common.Int.{ℤ}
use baseplate_go.Std.Instant.{Instant}
use baseplate_go.Std.Paths.{FilePath}
use baseplate_go.Std.Results.{Result, ok, err, Fault}
use baseplate_go.Filewatcher.{
  Parser, Error, is_not_exist, Disk, Outcome, loaded, error, panics, open_and_parse, Setting,
  options_of, hard_limit_of,
}
use baseplate_go.Filewatcher.Loop.{Fsnotify, DataAt, Watcher, Event, Runs}
use baseplate_go.Filewatcher.Loads.{Loads, GivenBy, Runs-GivenBy}
use baseplate_go.Filewatcher.New.{
  Round, First, waiting, cancelled, fails, crashes, finds, after_read, first_read, Started, starts,
  still_waits, returns_error, crashes_at_once, watch_files, result, watch_new, start, config_of,
  new,
}

module _ {T Tree : Type 0} (path : FilePath) (parser : Parser T Tree) (limit hard_limit : ℤ) where
  abbrev read : Disk Tree → Outcome T
  read disk = (open_and_parse path parser limit hard_limit disk).0

  -- The round ends with an error that means that the file is not there.
  abbrev IsMissing : Outcome T → Type 0
  IsMissing (loaded d mtime files) = ⊥
  IsMissing (error e) = is_not_exist e ≡ true
  IsMissing panics = ⊥

  abbrev pub Misses : Round Tree → Type 0
  Misses r = (r.done ≡ false) × IsMissing (read r.disk)

  -- lastErr after these rounds.
  abbrev last_of : Option Error → Outcome T → Option Error
  last_of last (loaded d mtime files) = last
  last_of last (error e) = some e
  last_of last panics = last

  abbrev pub last_error : Option Error → List (Round Tree) → Option Error
  last_error last [] = last
  last_error last (r ∷ rounds) = last_error (last_of last (read r.disk)) rounds

  -- What the round that is not a miss makes of it.
  abbrev ending : Outcome T → First T
  ending (loaded d mtime files) = finds d mtime files
  ending (error e) = fails e
  ending panics = crashes

  abbrev pub IsFinal : Outcome T → Type 0
  IsFinal (loaded d mtime files) = Unit {0}
  IsFinal (error e) = is_not_exist e ≡ false
  IsFinal panics = Unit {0}

  miss_lem :
      (last : Option Error) (o : Outcome T) (rounds : List (Round Tree))
      → IsMissing o
      → after_read path parser limit hard_limit
          (λ e. first_read path parser limit hard_limit (some e) rounds)
          o
        ≡ first_read path parser limit hard_limit (last_of last o) rounds
  miss_lem last (loaded d mtime files) rounds h = absurd h
  miss_lem last (error e) rounds h = rw h
  miss_lem last panics rounds h = absurd h

  first_read-Misses :
      (last : Option Error) (misses rest : List (Round Tree))
      → All Misses misses
      → first_read path parser limit hard_limit last (misses ++ rest)
        ≡ first_read path parser limit hard_limit (last_error last misses) rest
  unfolding first_read
  first_read-Misses last [] rest h = refl
  first_read-Misses last (r ∷ misses) rest ((open_, missing), hs) = rw open_ (
      miss_lem last (read r.disk) (misses ++ rest) missing
      ∙ first_read-Misses (last_of last (read r.disk)) misses rest hs)

  ending_lem :
      (again : Error → First T) (o : Outcome T)
      → IsFinal o
      → after_read path parser limit hard_limit again o ≡ ending o
  ending_lem again (loaded d mtime files) h = refl
  ending_lem again (error e) h = rw h
  ending_lem again panics h = refl

  ends :
      (last : Option Error) (b : Bool) (again : Error → First T) (o : Outcome T)
      → (b ≡ true) ⊎ IsFinal o
      → (if b then cancelled last else after_read path parser limit hard_limit again o)
        ≡ (if b then cancelled last else ending o)
  ends last true again o h = refl
  ends last false again o (inl h) = absurd (cc h)
  ends last false again o (inr h) = ending_lem again o h

  -- The first loop of New goes on after every round in which the context is not done and
  -- openAndParse fails because the file is not there, however many they are, and ends with the
  -- first other round: with the last error where the context is done, and else with the data, with
  -- the error, or with the panic of openAndParse.
  pub first_read_lem :
      (misses : List (Round Tree)) (r : Round Tree) (rest : List (Round Tree))
      → All Misses misses
      → (r.done ≡ true) ⊎ IsFinal (read r.disk)
      → first_read path parser limit hard_limit none (misses ++ r ∷ rest)
        ≡ (if r.done then cancelled (last_error none misses) else ending (read r.disk))
  unfolding first_read
  first_read_lem misses r rest hs h =
      first_read-Misses none misses (r ∷ rest) hs
      ∙ ends (last_error none misses) r.done
          (λ e. first_read path parser limit hard_limit (some e) rest) (read r.disk) h

  -- The parser made it of the disk of one of the rounds.
  abbrev pub FromRounds : DataAt T → List (Round Tree) → Type 0
  FromRounds x [] = ⊥
  FromRounds x (r ∷ rounds) = Loads (read r.disk) x ⊎ FromRounds x rounds

  abbrev Found : First T → List (Round Tree) → Type 0
  Found (waiting e) rounds = Unit {0}
  Found (cancelled e) rounds = Unit {0}
  Found (fails e) rounds = Unit {0}
  Found crashes rounds = Unit {0}
  Found (finds d mtime files) rounds = FromRounds (record { value = d; mtime = mtime }) rounds

  later-Found :
      (f : First T) (r : Round Tree) (rounds : List (Round Tree))
      → Found f rounds
      → Found f (r ∷ rounds)
  later-Found (waiting e) r rounds h = tt
  later-Found (cancelled e) r rounds h = tt
  later-Found (fails e) r rounds h = tt
  later-Found crashes r rounds h = tt
  later-Found (finds d mtime files) r rounds h = inr h

  after_read-Found :
      (again : Error → First T) (o : Outcome T) (r : Round Tree) (rounds : List (Round Tree))
      → o ≡ read r.disk
      → ((e : Error) → Found (again e) rounds)
      → Found (after_read path parser limit hard_limit again o) (r ∷ rounds)
  after_read-Found again (loaded d mtime files) r rounds h k =
      inl (subst (λ o. Loads o (record { value = d; mtime = mtime })) h refl)
  after_read-Found again (error e) r rounds h k =
      elim (is_not_exist e) as (λ b. Found (if b then again e else fails e) (r ∷ rounds)) [
        | true ↦ later-Found (again e) r rounds (k e)
        | false ↦ tt
      ]
  after_read-Found again panics r rounds h k = tt

  if-Found :
      (b : Bool) (rounds : List (Round Tree)) (f g : First T)
      → Found f rounds
      → Found g rounds
      → Found (if b then f else g) rounds
  if-Found true rounds f g h k = h
  if-Found false rounds f g h k = k

  first_read-Found :
      (last : Option Error) (rounds : List (Round Tree))
      → Found (first_read path parser limit hard_limit last rounds) rounds
  unfolding first_read
  first_read-Found last [] = tt
  first_read-Found last (r ∷ rounds) =
      if-Found r.done (r ∷ rounds) (cancelled last) _ tt
        (after_read-Found _ (read r.disk) r rounds refl (λ e. first_read-Found (some e) rounds))

module _ {T State : Type 0} (notifier : Fsnotify State) where
  abbrev Stores : T → Instant → Started T State → Type 0
  Stores d mtime still_waits = Unit {0}
  Stores d mtime crashes_at_once = Unit {0}
  Stores d mtime (returns_error e) = Unit {0}
  Stores d mtime (starts w) = w.stored ≡ record { value = d; mtime = mtime }

  watch_new-Stores :
      (d : T) (mtime : Instant) (files : List FilePath) (s : Result Fault State)
      → Stores d mtime (watch_new notifier d mtime files s)
  watch_new-Stores d mtime files (err e) = tt
  watch_new-Stores d mtime files (ok s) =
      elim (watch_files notifier files s) as (λ r. Stores d mtime (result notifier d mtime r)) [
        | ok s' ↦ refl
        | err e ↦ tt
      ]

module _ {T Tree State : Type 0} (path : FilePath) (parser : Parser T Tree) (options : List Setting)
    (notifier : Fsnotify State) where
  abbrev limit_of : ℤ
  limit_of = (options_of options).file_size_limit

  start-FromRounds :
      (created : Result Fault State) (f : First T) (rounds : List (Round Tree))
      (w : Watcher T State)
      → start notifier created f ≡ starts w
      → Found path parser limit_of (hard_limit_of limit_of) f rounds
      → FromRounds path parser limit_of (hard_limit_of limit_of) w.stored rounds
  start-FromRounds created (waiting e) rounds w h k = absurd (cc h)
  start-FromRounds created (cancelled e) rounds w h k = absurd (cc h)
  start-FromRounds created (fails e) rounds w h k = absurd (cc h)
  start-FromRounds created crashes rounds w h k = absurd (cc h)
  start-FromRounds created (finds d mtime files) rounds w h k =
      let same : w.stored ≡ record { value = d; mtime = mtime } =
        subst (Stores notifier d mtime) h (watch_new-Stores notifier d mtime files created) in
      subst (λ x. FromRounds path parser limit_of (hard_limit_of limit_of) x rounds) (sym same) k

  -- Where New starts a watcher, after any run of its loop, its timer and calls of Close, what is
  -- stored is data that the parser returned for a disk met in the run or in the rounds of New, with
  -- the time of the file on that disk.
  pub new_served :
      (rounds : List (Round Tree)) (created : Result Fault State) {w u : Watcher T State}
      {es : List (Event Tree)}
      → new notifier path parser options rounds created ≡ starts w
      → Runs (config_of notifier path parser options) w es u
      → GivenBy (config_of notifier path parser options) u.stored es
        ⊎ FromRounds path parser limit_of (hard_limit_of limit_of) u.stored rounds
  new_served rounds created {w} {u} h r =
      elim (Runs-GivenBy (config_of notifier path parser options) r) [
        | inl given ↦ inl given
        | inr same ↦ inr (
            subst (λ x. FromRounds path parser limit_of (hard_limit_of limit_of) x rounds)
              (sym same)
              (start-FromRounds created
                (first_read path parser limit_of (hard_limit_of limit_of) none rounds) rounds w h
                (first_read-Found path parser limit_of (hard_limit_of limit_of) none rounds)))
      ]
