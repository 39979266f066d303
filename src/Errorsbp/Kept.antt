-- ===== src/Errorsbp/Kept.antt =====
-- A batch and the errors that are added, for errors.Is and BatchSize (errorsbp/batch.go).
use baseplate_go.Common.{
  ℕ, ◌+◌, ◌≡◌, ◌↔◌, refl, ◌∙◌, Bool, false, ◌||◌, List, [], ◌∷◌, Option, none, some, Bytes, arith,
  Option-cases, All, inl, inr,
}
use baseplate_go.Errorsbp.Batch.{
  Error, leaf, prefixed, batch, joined, Errors, no_errors, error, append_errors, as_batch,
  first_batch, is, any_is, add_one, add, prefix_error, prefix_all, add_prefix_one, add_prefix_loop,
  add_prefix, compile, size_of, sizes, batch_size,
}

-- An error whose only Batch, if it has one, is all that it wraps.
abbrev pub Direct : Error → Type 0
Direct (leaf n) = Unit
Direct (prefixed p e) = Direct e
Direct (batch es) = Unit
Direct (joined es) = first_batch es ≡ none

abbrev pub DirectOption : Option Error → Type 0
DirectOption none = Unit
DirectOption (some e) = Direct e

-- Whether one of the errors is the target, and how many there are.
abbrev pub any_of : List (Option Error) → ℕ → Bool
any_of [] n = false
any_of (none ∷ es) n = any_of es n
any_of (some e ∷ es) n = is e n || any_of es n

abbrev pub batch_sizes : List (Option Error) → ℕ
batch_sizes [] = 0
batch_sizes (e ∷ es) = batch_size e + batch_sizes es

any_is-append :
    (es fs : Errors) (n : ℕ) → any_is (append_errors es fs) n ≡ (any_is es n || any_is fs n)
unfolding is
any_is-append no_errors fs n = refl
any_is-append (error e es) fs n = ground (arith, any_is-append es fs n)

sizes-append : (es fs : Errors) → sizes (append_errors es fs) ≡ sizes es + sizes fs
unfolding size_of
sizes-append no_errors fs = omega arith
sizes-append (error e es) fs = omega (arith, sizes-append es fs)

-- The Batch that is found in a direct error has all of its causes.
as_batch-is :
    (e : Error) (fs : Errors) (n : ℕ) → Direct e → as_batch e ≡ some fs → any_is fs n ≡ is e n
unfolding is as_batch
as_batch-is (leaf m) fs n d h = absurd (cc h)
as_batch-is (prefixed p e) fs n d h = as_batch-is e fs n d h
as_batch-is (batch es) fs n d h = cc h
as_batch-is (joined es) fs n d h = absurd (cc (d, h))

as_batch-size_of :
    (e : Error) (fs : Errors) → Direct e → as_batch e ≡ some fs → sizes fs ≡ size_of e
unfolding size_of as_batch
as_batch-size_of (leaf m) fs d h = absurd (cc h)
as_batch-size_of (prefixed p e) fs d h = as_batch-size_of e fs d h
as_batch-size_of (batch es) fs d h = cc h
as_batch-size_of (joined es) fs d h = absurd (cc (d, h))

add_one-is :
    (es : Errors) (e : Error) (n : ℕ)
    → Direct e
    → any_is (add_one es (some e)) n ≡ (any_is es n || is e n)
unfolding any_is
add_one-is es e n d = elim (Option-cases (as_batch e)) [
  | inl h ↦ rw (h, add_one) (ground (arith, any_is-append es (error e no_errors) n))
  | inr (fs, h) ↦ rw (h, add_one) (ground (arith, any_is-append es fs n, as_batch-is e fs n d h))
]

add_one-sizes :
    (es : Errors) (e : Error) → Direct e → sizes (add_one es (some e)) ≡ sizes es + size_of e
unfolding sizes
add_one-sizes es e d = elim (Option-cases (as_batch e)) [
  | inl h ↦ rw (h, add_one) (omega (arith, sizes-append es (error e no_errors)))
  | inr (fs, h) ↦ rw (h, add_one) (omega (arith, sizes-append es fs, as_batch-size_of e fs d h))
]

-- Add loses none of the errors that are added, if none of them hides a Batch beside other causes: what
-- the batch is, for errors.Is, is what it was before or what one of the errors is, and its BatchSize
-- grows by theirs. Nil errors count for nothing.
pub add-keeps :
    (es : Errors) (errs : List (Option Error)) (n : ℕ)
    → All DirectOption errs
    → (is (batch (add es errs)) n ≡ (any_is es n || any_of errs n))
      × (size_of (batch (add es errs)) ≡ sizes es + batch_sizes errs)
unfolding add is size_of
add-keeps es [] n d = (ground arith, omega arith)
add-keeps es (none ∷ errs) n (d, ds) = let (a, b) = add-keeps es errs n ds in (a, omega (arith, b))
add-keeps es (some e ∷ errs) n (d, ds) =
    let (a, b) = add-keeps (add_one es (some e)) errs n ds in
    (a ∙ ground (arith, add_one-is es e n d), omega (arith, b, add_one-sizes es e d))

pub prefix_error-is : (p : Bytes) (e : Error) (n : ℕ) → is (prefix_error p e) n ≡ is e n
unfolding is
prefix_error-is [] e n = refl
prefix_error-is (c ∷ p) e n = refl

prefix_all-is : (p : Bytes) (es : Errors) (n : ℕ) → any_is (prefix_all p es) n ≡ any_is es n
unfolding is
prefix_all-is p no_errors n = refl
prefix_all-is p (error e es) n = ground (arith, prefix_error-is p e n, prefix_all-is p es n)

add_prefix_one-is :
    (p : Bytes) (es : Errors) (e : Error) (n : ℕ)
    → Direct e
    → any_is (add_prefix_one p es (some e)) n ≡ (any_is es n || is e n)
unfolding any_is
add_prefix_one-is p es e n d = elim (Option-cases (as_batch e)) [
  | inl h ↦
      rw (h, add_prefix_one)
        (ground
          (arith, any_is-append es (error (prefix_error p e) no_errors) n, prefix_error-is p e n))
  | inr (fs, h) ↦
      rw (h, add_prefix_one)
        (ground (
          arith,
          any_is-append es (prefix_all p fs) n,
          prefix_all-is p fs n,
          as_batch-is e fs n d h,
        ))
]

add_prefix_loop-is :
    (p : Bytes) (es : Errors) (errs : List (Option Error)) (n : ℕ)
    → All DirectOption errs
    → any_is (add_prefix_loop p es errs) n ≡ (any_is es n || any_of errs n)
unfolding add_prefix_loop
add_prefix_loop-is p es [] n d = ground arith
add_prefix_loop-is p es (none ∷ errs) n (d, ds) = add_prefix_loop-is p es errs n ds
add_prefix_loop-is p es (some e ∷ errs) n (d, ds) =
    add_prefix_loop-is p (add_prefix_one p es (some e)) errs n ds
    ∙ ground (arith, add_prefix_one-is p es e n d)

-- AddPrefix keeps what the errors are too, with every prefix.
pub add_prefix-is :
    (p : Bytes) (es : Errors) (errs : List (Option Error)) (n : ℕ)
    → All DirectOption errs
    → is (batch (add_prefix p es errs)) n ≡ (any_is es n || any_of errs n)
unfolding add_prefix is
add_prefix-is [] es errs n d = (add-keeps es errs n d).0
add_prefix-is (c ∷ p) es errs n d = add_prefix_loop-is (c ∷ p) es errs n d

-- The error that Compile returns is what the batch is, and has its BatchSize; there is none exactly if
-- the batch is empty.
pub compile-keeps :
    (es : Errors) (n : ℕ)
    → (any_of (compile es ∷ []) n ≡ is (batch es) n)
      × (batch_size (compile es) ≡ size_of (batch es))
      × ((compile es ≡ none) ↔ (es ≡ no_errors))
unfolding compile is size_of
compile-keeps no_errors n = (refl, refl, (λ h. refl, λ h. refl))
compile-keeps (error e no_errors) n = (refl, omega arith, (λ h. absurd (cc h), λ h. absurd (cc h)))
compile-keeps (error e (error f es)) n =
    (ground arith, refl, (λ h. absurd (cc h), λ h. absurd (cc h)))
