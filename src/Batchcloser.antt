-- ===== src/Batchcloser.antt =====
-- batchcloser/closers.go: BatchCloser.
-- A closer is its number. What Close of each returns, and its text in the format %#v, are arguments. Close
-- returns the closers that were closed, latest first, and the error.
pub mod Closes
mod Tests
use baseplate_go.Common.{ℕ, List, [], ◌∷◌, ◌++◌, Option, none, some, Bytes, map}
use baseplate_go.Errorsbp.Batch.{Error, joined, Errors, no_errors, error, prefix}

abbrev pub BatchCloser : Type 0
BatchCloser = List ℕ

unfoldable pub add : BatchCloser → List ℕ → BatchCloser
add bc closers = bc ++ closers

-- New
unfoldable pub new : List ℕ → BatchCloser
unfolding add
new closers = add [] closers

-- errors.Join: nil errors are left out, and no error makes nil.
abbrev pub cons_error : Option Error → Errors → Errors
cons_error none es = es
cons_error (some e) es = error e es

abbrev pub not_nil : List (Option Error) → Errors
not_nil [] = no_errors
not_nil (e ∷ es) = cons_error e (not_nil es)

abbrev pub join_of : Errors → Option Error
join_of no_errors = none
join_of (error e es) = some (joined (error e es))

module _ (text : ℕ → Bytes) (close_one : ℕ → Option Error) where
  -- The loop of Close: the closers closed before, and the errors.
  unfoldable pub close_all : List ℕ → BatchCloser → List ℕ × List (Option Error)
  close_all closed [] = (closed, [])
  close_all closed (c ∷ cs) =
      let (closed', errs) = close_all (c ∷ closed) cs in
      (closed', prefix (text c) (close_one c) ∷ errs)

  unfoldable pub close : BatchCloser → List ℕ × Option Error
  unfolding close_all
  close bc = let (closed, errs) = close_all [] bc in (closed, join_of (not_nil errs))
