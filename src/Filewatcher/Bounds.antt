-- ===== src/Filewatcher/Bounds.antt =====
-- The limits on the size of a watched file, and the files that openAndParse leaves open
-- (filewatcher/v2/filewatcher.go with internal/limitopen/limitopen.go).
use baseplate_go.Common.{
  ℕ, ◌+◌, ◌*◌, ◌^◌, ◌≤◌, ◌<◌, ◌≡◌, refl, sym, ap, subst, ◌∙◌, Bool, true, false, List, [], ◌∷◌,
  ◌++◌, Bytes, length, arith,
}
use baseplate_go.Common.Int.{ℤ, pos, pos_part, ◌<ℤ◌}
use baseplate_go.Std.Instant.{Instant}
use baseplate_go.Std.Int64.{wrap_64_id}
use baseplate_go.Std.Paths.{FilePath, dir}
use baseplate_go.Std.Results.{Result, ok, err, Fault}
use baseplate_go.Limitopen
use baseplate_go.Limitopen.{Effect, opened, closed, size_gauge, soft_limit_counter, open_with_limit}
use baseplate_go.Limitopen.Limits.{
  openings, closings, LeftOpen, IsWithin, open_with_limit-LeftOpen, open_with_limit-IsWithin,
}
use baseplate_go.Filewatcher.{
  file_reader, Parsed, parsed, not_parsed, panicked, Parser, FileInfo, Disk, loaded, outcome,
  parse_opened, parse_kind, parse_found, open_and_parse, hard_limit_of,
}

openings-append : (es fs : List Effect) → openings (es ++ fs) ≡ openings es + openings fs
openings-append [] fs = omega arith
openings-append (opened p ∷ es) fs = omega (arith, openings-append es fs)
openings-append (closed p ∷ es) fs = openings-append es fs
openings-append (size_gauge p n ∷ es) fs = openings-append es fs
openings-append (soft_limit_counter p ∷ es) fs = openings-append es fs

closings-append : (es fs : List Effect) → closings (es ++ fs) ≡ closings es + closings fs
closings-append [] fs = omega arith
closings-append (opened p ∷ es) fs = closings-append es fs
closings-append (closed p ∷ es) fs = omega (arith, closings-append es fs)
closings-append (size_gauge p n ∷ es) fs = closings-append es fs
closings-append (soft_limit_counter p ∷ es) fs = closings-append es fs

abbrev pub Balanced : List Effect → Type 0
Balanced es = openings es ≡ closings es

module _ {T Tree : Type 0} (path : FilePath) (parser : Parser T Tree) (limit hard : ℤ) where
  opened-Balanced :
      (mtime : Instant) (tree : Tree) (r : Result Limitopen.Error Bytes) (done : List Effect)
      → LeftOpen r done
      → Balanced (parse_opened path parser limit hard mtime tree (r, done)).1
  opened-Balanced mtime tree (err e) done h = h
  opened-Balanced mtime tree (ok contents) done h =
      omega
        (arith, openings-append done (closed path ∷ []), closings-append done (closed path ∷ []))

  kind-Balanced :
      (disk : Disk Tree) (mtime : Instant) (b : Bool)
      → Balanced (parse_kind path parser limit hard disk mtime b).1
  kind-Balanced disk mtime true = refl
  kind-Balanced disk mtime false =
      let (r, done) = open_with_limit path limit hard disk.opening in
      opened-Balanced mtime disk.tree r done (open_with_limit-LeftOpen path limit hard disk.opening)

  found-Balanced :
      (disk : Disk Tree) (stat : Result Fault FileInfo)
      → Balanced (parse_found path parser limit hard disk stat).1
  found-Balanced disk (err e) = refl
  found-Balanced disk (ok info) = kind-Balanced disk info.mod_time info.is_dir

  -- openAndParse closes every file that it opens, once, whatever the system answers and whether the
  -- parser returns data, an error, or panics.
  pub open_and_parse-Balanced :
      (disk : Disk Tree) → Balanced (open_and_parse path parser limit hard disk).1
  unfolding open_and_parse
  open_and_parse-Balanced disk = found-Balanced disk disk.stat

  -- The parser made the data of this many bytes at most.
  abbrev pub MadeOf : Tree → T → ℕ → Type 0
  MadeOf tree d most =
      (contents : Bytes) × (parser tree (file_reader contents) ≡ parsed d)
      × (length contents ≤ most)

  outcome-parsed :
      (mtime mtime' : Instant) (files files' : List FilePath) (p : Parsed T) {d : T}
      → outcome mtime files p ≡ loaded d mtime' files'
      → p ≡ parsed d
  outcome-parsed mtime mtime' files files' (parsed d') h = cc h
  outcome-parsed mtime mtime' files files' (not_parsed e) h = absurd (cc h)
  outcome-parsed mtime mtime' files files' panicked h = absurd (cc h)

  opened-MadeOf :
      (mtime mtime' : Instant) (tree : Tree) (r : Result Limitopen.Error Bytes) (done : List Effect)
      (files : List FilePath) {d : T}
      → IsWithin hard r
      → (parse_opened path parser limit hard mtime tree (r, done)).0 ≡ loaded d mtime' files
      → MadeOf tree d (pos_part hard)
  opened-MadeOf mtime mtime' tree (err e) done files w h = absurd (cc h)
  opened-MadeOf mtime mtime' tree (ok contents) done files w h = (
    contents,
    outcome-parsed mtime mtime' (dir path ∷ path ∷ []) files (parser tree (file_reader contents)) h,
    w,
  )

  file-MadeOf :
      (disk : Disk Tree) (info : FileInfo) (mtime : Instant) (files : List FilePath) {d : T}
      → pos 0 <ℤ hard
      → disk.stat ≡ ok info
      → info.is_dir ≡ false
      → (open_and_parse path parser limit hard disk).0 ≡ loaded d mtime files
      → MadeOf disk.tree d (pos_part hard)
  unfolding open_and_parse
  file-MadeOf disk info mtime files {d} pos_hard found is_file h =
      let (r, done) = open_with_limit path limit hard disk.opening in
      opened-MadeOf info.mod_time mtime disk.tree r done files
        (open_with_limit-IsWithin path limit hard disk.opening pos_hard)
        (sym (ap (λ b. (parse_kind path parser limit hard disk info.mod_time b).0) is_file)
          ∙ sym (ap (λ s. (parse_found path parser limit hard disk s).0) found)
          ∙ h)

hard_limit_of_small :
    (limit : ℕ) → limit * 10 < 2 ^ 63 → hard_limit_of (pos limit) ≡ pos (limit * 10)
hard_limit_of_small limit h = wrap_64_id (pos (limit * 10)) (omega arith)

module _ {T Tree : Type 0} (path : FilePath) (parser : Parser T Tree) where
  -- With a soft limit that is positive and whose tenfold an int64 holds, data that openAndParse
  -- returns for a path that is a file is what the parser returns for a reader of at most ten times
  -- the limit in bytes.
  pub parsed_within :
      (limit : ℕ) (disk : Disk Tree) (info : FileInfo) (mtime : Instant) (files : List FilePath)
      {d : T}
      → 0 < limit
      → limit * 10 < 2 ^ 63
      → disk.stat ≡ ok info
      → info.is_dir ≡ false
      → (open_and_parse path parser (pos limit) (hard_limit_of (pos limit)) disk).0
        ≡ loaded d mtime files
      → MadeOf path parser (pos limit) (hard_limit_of (pos limit)) disk.tree d (limit * 10)
  parsed_within limit disk info mtime files {d} positive small found is_file h =
      let e = hard_limit_of_small limit small in
      subst
        (λ n. MadeOf path parser (pos limit) (hard_limit_of (pos limit)) disk.tree d (pos_part n)) e
        (file-MadeOf path parser (pos limit) (hard_limit_of (pos limit)) disk info mtime files
          (rw e (omega arith)) found is_file h)
