-- ===== src/Limitopen.antt =====
-- internal/limitopen/limitopen.go: opening a file with a limit on its size.
-- What os.Open, File.Stat and reading answer is an argument. A function returns its result and what it did
-- to the file and to the metrics, in order.
pub mod Limits
mod Tests
use baseplate_go.Common.{
  Bool, ◌&&◌, List, [], ◌∷◌, ◌++◌, Bytes, Option, none, some, String, take, if◌then◌else◌,
}
use baseplate_go.Common.Int.{ℤ, pos, pos_part, ltb_ℤ}
use baseplate_go.Std.Paths.{FilePath, base}
use baseplate_go.Std.Results.{Result, ok, err, Fault}

pub data Error : Type 0 where
  open_failed : FilePath → Fault → Error
  size_failed : FilePath → Fault → Error
  over_limit : ℤ → ℤ → FilePath → Error

pub data Effect : Type 0 where
  opened closed : FilePath → Effect
  size_gauge : String → ℤ → Effect
  soft_limit_counter : String → Effect

-- The system's answers for one opening: the error of os.Open, the size that Stat reports, and all that could
-- be read.
pub record Answers : Type 0 where
  pub open_error : Option Fault
  pub size : Result Fault ℤ
  pub contents : Bytes

-- io.LimitReader: at most `size` bytes, none if it is negative.
abbrev pub limit_reader : Bytes → ℤ → Bytes
limit_reader contents size = take (pos_part size) contents

-- Open, after os.Open: the deferred function closes the file on an error.
abbrev pub open_sized : FilePath → Bytes → Result Fault ℤ → Result Error (Bytes × ℤ) × List Effect
open_sized path contents (err e) = (err (size_failed path e), opened path ∷ closed path ∷ [])
open_sized path contents (ok size) = (ok (limit_reader contents size, size), opened path ∷ [])

abbrev pub open_found : FilePath → Answers → Option Fault → Result Error (Bytes × ℤ) × List Effect
open_found path a (some e) = (err (open_failed path e), [])
open_found path a none = open_sized path a.contents a.size

unfoldable pub open_file : FilePath → Answers → Result Error (Bytes × ℤ) × List Effect
open_file path a = open_found path a a.open_error

abbrev pub exceeds : ℤ → ℤ → Bool
exceeds limit size = ltb_ℤ (pos 0) limit && ltb_ℤ limit size

abbrev pub report : FilePath → ℤ → ℤ → List Effect
report path soft_limit size =
    size_gauge (base path) size
    ∷ (if exceeds soft_limit size then soft_limit_counter (base path) ∷ [] else [])

abbrev pub check_limits :
    FilePath → ℤ → ℤ → Result Error (Bytes × ℤ) × List Effect → Result Error Bytes × List Effect
check_limits path soft_limit hard_limit (err e, done) = (err e, done)
check_limits path soft_limit hard_limit (ok (reader, size), done) =
    if exceeds hard_limit size
    then (
      err (over_limit size hard_limit path),
      done ++ (report path soft_limit size ++ closed path ∷ []),
    )
    else (ok reader, done ++ report path soft_limit size)

unfoldable pub open_with_limit : FilePath → ℤ → ℤ → Answers → Result Error Bytes × List Effect
unfolding open_file
open_with_limit path soft_limit hard_limit a =
    check_limits path soft_limit hard_limit (open_file path a)
