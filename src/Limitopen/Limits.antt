-- ===== src/Limitopen/Limits.antt =====
-- What OpenWithLimit (internal/limitopen/limitopen.go) lets through, and what it leaves open.
use baseplate_go.Common.{
  ℕ, ◌+◌, ◌≤◌, ◌≡◌, refl, Bool-cases, inl, inr, false, List, [], ◌∷◌, Bytes, Option, none, some,
  length, take, arith, zero, suc,
}
use baseplate_go.Common.Int.{ℤ, pos, pos_part, ◌<ℤ◌}
use baseplate_go.Std.Paths.{FilePath}
use baseplate_go.Std.Results.{Result, ok, err, Fault}
use baseplate_go.Limitopen.{
  Effect, opened, closed, size_gauge, soft_limit_counter, Answers, exceeds, open_found, open_sized,
  check_limits, open_with_limit,
}

-- How many files are open after these effects: openings less closings, and how often the counter rose.
abbrev pub openings : List Effect → ℕ
openings [] = 0
openings (opened p ∷ es) = suc (openings es)
openings (closed p ∷ es) = openings es
openings (size_gauge p n ∷ es) = openings es
openings (soft_limit_counter p ∷ es) = openings es

abbrev pub closings : List Effect → ℕ
closings [] = 0
closings (opened p ∷ es) = closings es
closings (closed p ∷ es) = suc (closings es)
closings (size_gauge p n ∷ es) = closings es
closings (soft_limit_counter p ∷ es) = closings es

abbrev pub violations : List Effect → ℕ
violations [] = 0
violations (opened p ∷ es) = violations es
violations (closed p ∷ es) = violations es
violations (size_gauge p n ∷ es) = violations es
violations (soft_limit_counter p ∷ es) = suc (violations es)

-- One file is left open where a reader is returned, none where an error is.
abbrev pub LeftOpen : {E A : Type 0} → Result E A → List Effect → Type 0
LeftOpen (ok r) es = openings es ≡ closings es + 1
LeftOpen (err e) es = openings es ≡ closings es

-- A reader gives at most as many bytes as the limit.
abbrev pub IsWithin : {E : Type 0} → ℤ → Result E Bytes → Type 0
IsWithin hard (ok r) = length r ≤ pos_part hard
IsWithin hard (err e) = Unit {0}

module _ {A : Type 0} where
  length-take : (n : ℕ) (xs : List A) → length (take n xs) ≤ n
  length-take zero xs = omega arith
  length-take (suc n) [] = omega arith
  length-take (suc n) (x ∷ xs) = omega (arith, length-take n xs)

within_limit :
    (hard n : ℤ) (contents : Bytes)
    → pos 0 <ℤ hard
    → exceeds hard n ≡ false
    → length (take (pos_part n) contents) ≤ pos_part hard
within_limit hard n contents h e =
    let short : pos_part n ≤ pos_part hard = ground arith in
    omega (arith, length-take (pos_part n) contents)

module _ (path : FilePath) (soft hard : ℤ) (contents : Bytes) where
  sized-LeftOpen :
      (size : Result Fault ℤ)
      → LeftOpen
          (check_limits path soft hard (open_sized path contents size)).0
          (check_limits path soft hard (open_sized path contents size)).1
  sized-LeftOpen (err e) = refl
  sized-LeftOpen (ok n) = elim (Bool-cases (exceeds hard n)) [
    | inl e ↦ rw e (elim (Bool-cases (exceeds soft n)) [ inl f ↦ rw f | inr f ↦ rw f ])
    | inr e ↦ rw e (elim (Bool-cases (exceeds soft n)) [ inl f ↦ rw f | inr f ↦ rw f ])
  ]

  sized-IsWithin :
      (size : Result Fault ℤ)
      → pos 0 <ℤ hard
      → IsWithin hard (check_limits path soft hard (open_sized path contents size)).0
  sized-IsWithin (err e) h = tt
  sized-IsWithin (ok n) h = elim (Bool-cases (exceeds hard n)) [
    | inl e ↦ rw e tt
    | inr e ↦ rw e (within_limit hard n contents h e)
  ]

module _ (path : FilePath) (soft hard : ℤ) where
  found-LeftOpen :
      (a : Answers) (o : Option Fault)
      → LeftOpen
          (check_limits path soft hard (open_found path a o)).0
          (check_limits path soft hard (open_found path a o)).1
  found-LeftOpen a none = sized-LeftOpen path soft hard a.contents a.size
  found-LeftOpen a (some e) = refl

  found-IsWithin :
      (a : Answers) (o : Option Fault)
      → pos 0 <ℤ hard
      → IsWithin hard (check_limits path soft hard (open_found path a o)).0
  found-IsWithin a none h = sized-IsWithin path soft hard a.contents a.size h
  found-IsWithin a (some e) h = tt

  pub open_with_limit-LeftOpen :
      (a : Answers)
      → LeftOpen (open_with_limit path soft hard a).0 (open_with_limit path soft hard a).1
  unfolding open_with_limit
  open_with_limit-LeftOpen a = found-LeftOpen a a.open_error

  pub open_with_limit-IsWithin :
      (a : Answers) → pos 0 <ℤ hard → IsWithin hard (open_with_limit path soft hard a).0
  unfolding open_with_limit
  open_with_limit-IsWithin a h = found-IsWithin a a.open_error h
