-- ===== src/Errorsbp/Batch.antt =====
-- errorsbp/batch.go: Batch, BatchSize and Prefix.
-- An error is one that wraps nothing, by its identity; one with a prefix that wraps another; a Batch (or
-- *Batch); or another error with several causes, such as that of errors.Join. A nil error is `none`.
use baseplate_go.Common.{
  ℕ, suc, ◌+◌, Bool, false, ◌||◌, List, [], ◌∷◌, Option, none, some, Bytes, is_empty, ◌==◌,
  if◌then◌else◌,
}

mutual
  pub data Error : Type 0 where
    leaf : ℕ → Error
    prefixed : Bytes → Error → Error
    batch joined : Errors → Error

  pub data Errors : Type 0 where
    no_errors : Errors
    error : Error → Errors → Errors

abbrev pub append_errors : Errors → Errors → Errors
append_errors no_errors fs = fs
append_errors (error e es) fs = error e (append_errors es fs)

-- The Batch that errors.As finds: the first one, depth first.
unfoldable mutual
  pub as_batch : Error → Option Errors
  as_batch (leaf n) = none
  as_batch (prefixed p e) = as_batch e
  as_batch (batch es) = some es
  as_batch (joined es) = first_batch es

  pub first_batch : Errors → Option Errors
  first_batch no_errors = none
  first_batch (error e es) =
      let rest = first_batch es in elim (as_batch e) [ some fs ↦ some fs | none ↦ rest ]

-- errors.Is for a target that wraps nothing, and Batch.Is.
unfoldable mutual
  pub is : Error → ℕ → Bool
  is (leaf m) n = m == n
  is (prefixed p e) n = is e n
  is (batch es) n = any_is es n
  is (joined es) n = any_is es n

  pub any_is : Errors → ℕ → Bool
  any_is no_errors n = false
  any_is (error e es) n = is e n || any_is es n

-- Len
abbrev pub len : Errors → ℕ
len no_errors = 0
len (error e es) = suc (len es)

abbrev pub add_batch : Errors → Errors → Errors
add_batch es fs = append_errors es fs

-- One round of the loop of Add.
abbrev pub add_one : Errors → Option Error → Errors
add_one es none = es
add_one es (some e) = elim (as_batch e) [
  | some fs ↦ add_batch es fs
  | none ↦ append_errors es (error e no_errors)
]

unfoldable pub add : Errors → List (Option Error) → Errors
add es [] = es
add es (e ∷ more) = add (add_one es e) more

-- Prefix, of an error that is not nil.
abbrev pub prefix_error : Bytes → Error → Error
prefix_error [] e = e
prefix_error (c ∷ p) e = prefixed (c ∷ p) e

abbrev pub prefix : Bytes → Option Error → Option Error
prefix p none = none
prefix p (some e) = some (prefix_error p e)

abbrev pub prefix_all : Bytes → Errors → Errors
prefix_all p no_errors = no_errors
prefix_all p (error e es) = error (prefix_error p e) (prefix_all p es)

abbrev pub add_prefix_one : Bytes → Errors → Option Error → Errors
add_prefix_one p es none = es
add_prefix_one p es (some e) = elim (as_batch e) [
  | some fs ↦ append_errors es (prefix_all p fs)
  | none ↦ append_errors es (error (prefix_error p e) no_errors)
]

unfoldable pub add_prefix_loop : Bytes → Errors → List (Option Error) → Errors
add_prefix_loop p es [] = es
add_prefix_loop p es (e ∷ more) = add_prefix_loop p (add_prefix_one p es e) more

unfoldable pub add_prefix : Bytes → Errors → List (Option Error) → Errors
add_prefix p es errs = if is_empty p then add es errs else add_prefix_loop p es errs

unfoldable pub compile : Errors → Option Error
compile no_errors = none
compile (error e no_errors) = some e
compile (error e (error f es)) = some (batch (error e (error f es)))

abbrev pub clear : Errors → Errors
clear es = no_errors

-- BatchSize, of an error that is not nil: errors.As finds the first error with several causes.
unfoldable mutual
  pub size_of : Error → ℕ
  size_of (leaf n) = 1
  size_of (prefixed p e) = size_of e
  size_of (batch es) = sizes es
  size_of (joined es) = sizes es

  pub sizes : Errors → ℕ
  sizes no_errors = 0
  sizes (error e es) = size_of e + sizes es

abbrev pub batch_size : Option Error → ℕ
batch_size none = 0
batch_size (some e) = size_of e
