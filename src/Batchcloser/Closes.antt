-- ===== src/Batchcloser/Closes.antt =====
-- What BatchCloser.Close (batchcloser/closers.go) closes and returns.
use baseplate_go.Common.{
  ℕ, ◌+◌, ◌≡◌, refl, sym, ap, ◌∙◌, ◌||◌, List, [], ◌∷◌, Option, none, some, Bytes, map, arith,
  count,
}
use baseplate_go.Errorsbp.Batch.{Error, Errors, no_errors, error, prefix, any_is}
use baseplate_go.Errorsbp.Kept.{any_of, prefix_error-is}
use baseplate_go.Batchcloser.{BatchCloser, not_nil, cons_error, join_of, close_all, close}

any_of-cons :
    (e : Option Error) (es : List (Option Error)) (n : ℕ)
    → any_of (e ∷ es) n ≡ (any_of (e ∷ []) n || any_of es n)
any_of-cons none es n = refl
any_of-cons (some e) es n = ground arith

module _ (text : ℕ → Bytes) (close_one : ℕ → Option Error) where
  close_all-count :
      (a : ℕ) (closed : List ℕ) (bc : BatchCloser)
      → count a (close_all text close_one closed bc).0 ≡ count a closed + count a bc
  unfolding close_all
  close_all-count a closed [] = omega arith
  close_all-count a closed (c ∷ cs) = omega (arith, close_all-count a (c ∷ closed) cs)

  prefixed-is :
      (p : Bytes) (e : Option Error) (es : Errors) (n : ℕ)
      → any_is (cons_error (prefix p e) es) n ≡ (any_of (e ∷ []) n || any_is es n)
  unfolding any_is
  prefixed-is p none es n = refl
  prefixed-is p (some e) es n = ground (arith, prefix_error-is p e n)

  close_all-is :
      (closed : List ℕ) (bc : BatchCloser) (n : ℕ)
      → any_is (not_nil (close_all text close_one closed bc).1) n ≡ any_of (map close_one bc) n
  unfolding close_all any_is
  close_all-is closed [] n = refl
  close_all-is closed (c ∷ cs) n =
      prefixed-is (text c) (close_one c) (not_nil (close_all text close_one (c ∷ closed) cs).1) n
      ∙ ap (λ b. any_of (close_one c ∷ []) n || b) (close_all-is (c ∷ closed) cs n)
      ∙ sym (any_of-cons (close_one c) (map close_one cs) n)

  join_of-is : (es : Errors) (n : ℕ) → any_of (join_of es ∷ []) n ≡ any_is es n
  unfolding any_is
  join_of-is no_errors n = refl
  join_of-is (error e es) n = ground arith

  -- Close closes every closer as often as it was added, whatever the others return, and its error is for
  -- errors.Is what one of theirs is.
  pub close_lem :
      (bc : BatchCloser) (a n : ℕ)
      → (count a (close text close_one bc).0 ≡ count a bc)
        × (any_of ((close text close_one bc).1 ∷ []) n ≡ any_of (map close_one bc) n)
  unfolding close
  close_lem bc a n = (
    close_all-count a [] bc ∙ omega arith,
    join_of-is (not_nil (close_all text close_one [] bc).1) n ∙ close_all-is [] bc n,
  )
