-- ===== src/Errorsbp/Tests.antt =====
-- Small batches, and the theorems on them (errorsbp/batch.go).
use baseplate_go.Common.{◌+◌, ◌≡◌, refl, subst, ◌↔◌, ◌||◌, List, [], ◌∷◌, Option, none, some, codes}
use baseplate_go.Errorsbp.Batch.{
  append_errors, Error, leaf, prefixed, batch, joined, Errors, no_errors, error, as_batch, is,
  any_is, add, add_prefix, compile, size_of, sizes, batch_size,
}
use baseplate_go.Errorsbp.Kept.{any_of, batch_sizes, add-keeps, add_prefix-is, compile-keeps}
use baseplate_go.Errorsbp.Flat.{Flat, add-Flat, add_drops}

abbrev two : Errors
two = error (leaf 1) (error (leaf 2) no_errors)

abbrev errs : List (Option Error)
errs = some (prefixed (codes "closing") (batch two)) ∷ none ∷ some (leaf 3) ∷ []

added : add no_errors errs ≡ error (leaf 1) (error (leaf 2) (error (leaf 3) no_errors))
unfolding add as_batch
added = refl

add-keeps_example :
    (is (batch (add no_errors errs)) 2 ≡ (any_is no_errors 2 || any_of errs 2))
    × (size_of (batch (add no_errors errs)) ≡ sizes no_errors + batch_sizes errs)
add-keeps_example = add-keeps no_errors errs 2 (tt, (tt, (tt, tt)))

add_prefix_is_case :
    is (batch (add_prefix (codes "p") no_errors errs)) 2 ≡ (any_is no_errors 2 || any_of errs 2)
add_prefix_is_case = add_prefix-is (codes "p") no_errors errs 2 (tt, (tt, (tt, tt)))

compile-keeps_case :
    (any_of (compile two ∷ []) 2 ≡ is (batch two) 2)
    × (batch_size (compile two) ≡ size_of (batch two))
    × ((compile two ≡ none) ↔ (two ≡ no_errors))
compile-keeps_case = compile-keeps two 2

two-Flat : Flat two
unfolding as_batch
two-Flat = (refl, (refl, tt))

two_inside : (fs : Errors) → as_batch (prefixed (codes "closing") (batch two)) ≡ some fs → Flat fs
unfolding as_batch
two_inside fs e = let same : two ≡ fs = cc e in subst Flat same two-Flat

three_inside : (fs : Errors) → as_batch (leaf 3) ≡ some fs → Flat fs
unfolding as_batch
three_inside fs e = absurd (cc e)

add-Flat_case : Flat (add two errs)
add-Flat_case = add-Flat two errs two-Flat (two_inside, (tt, (three_inside, tt)))

lone : as_batch (leaf 1) ≡ none
unfolding as_batch
lone = refl

add_drops_case :
    add two (some (joined (error (leaf 1) (error (batch two) no_errors))) ∷ [])
    ≡ append_errors two two
add_drops_case = add_drops two two no_errors (leaf 1) lone
