-- ===== src/Errorsbp/Flat.antt =====
-- The shape of a batch (errorsbp/batch.go).
use baseplate_go.Common.{◌≡◌, ap, List, [], ◌∷◌, Option, none, some, Option-cases, All, inl, inr}
use baseplate_go.Errorsbp.Batch.{
  Error, batch, joined, Errors, no_errors, error, append_errors, as_batch, add_one, add,
}

-- No error of the batch has a Batch in it.
abbrev pub Flat : Errors → Type 0
Flat no_errors = Unit
Flat (error e es) = (as_batch e ≡ none) × Flat es

-- The Batch that an error has, if any, is flat.
abbrev pub FlatInside : Option Error → Type 0
FlatInside none = Unit
FlatInside (some e) = (fs : Errors) → as_batch e ≡ some fs → Flat fs

append_errors-Flat : (es fs : Errors) → Flat es → Flat fs → Flat (append_errors es fs)
append_errors-Flat no_errors fs h k = k
append_errors-Flat (error e es) fs (h, hs) k = (h, append_errors-Flat es fs hs k)

add_one-Flat :
    (es : Errors) (e : Error) → Flat es → FlatInside (some e) → Flat (add_one es (some e))
add_one-Flat es e h k = elim (Option-cases (as_batch e)) [
  | inl n ↦ rw (n, Flat, add_one) (append_errors-Flat es (error e no_errors) h (n, tt))
  | inr (fs, n) ↦ rw (n, Flat, add_one) (append_errors-Flat es fs h (k fs n))
]

-- Add never puts a Batch into a batch: if the batch and the Batches inside the errors are flat, so is the
-- batch after Add. So errors.Is on it cannot run into the batch itself.
pub add-Flat :
    (es : Errors) (errs : List (Option Error)) → Flat es → All FlatInside errs → Flat (add es errs)
unfolding add
add-Flat es [] h k = h
add-Flat es (none ∷ errs) h (k, ks) = add-Flat es errs h ks
add-Flat es (some e ∷ errs) h (k, ks) =
    add-Flat (add_one es (some e)) errs (add_one-Flat es e h k) ks

-- An error that has a Batch beside other causes loses these when it is added: of a joined error only
-- the errors of its first Batch get into the batch, and neither the cause before it nor those after it.
pub add_drops :
    (es fs more : Errors) (e : Error)
    → as_batch e ≡ none
    → add es (some (joined (error e (error (batch fs) more))) ∷ []) ≡ append_errors es fs
unfolding add as_batch
add_drops es fs more e n =
    ap
      (λ found. elim found [
        | some gs ↦ append_errors es gs
        | none ↦ append_errors es (error (joined all) no_errors)
      ])
      (ap (λ first. elim first [ some gs ↦ some gs | none ↦ some fs ]) n)
  where
    all : Errors
    all = error e (error (batch fs) more)
