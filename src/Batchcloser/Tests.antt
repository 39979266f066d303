-- ===== src/Batchcloser/Tests.antt =====
-- Three closers of which one fails (batchcloser/closers.go).
use baseplate_go.Common.{
  ℕ, ◌≡◌, refl, [], ◌∷◌, Option, none, some, Bytes, codes, map, count, ◌==◌, if◌then◌else◌,
}
use baseplate_go.Errorsbp.Batch.{Error, leaf}
use baseplate_go.Errorsbp.Kept.{any_of}
use baseplate_go.Batchcloser.{BatchCloser, close}
use baseplate_go.Batchcloser.Closes.{close_lem}

abbrev text : ℕ → Bytes
text c = codes "closer"

abbrev close_one : ℕ → Option Error
close_one c = if c == 2 then some (leaf 7) else none

abbrev three : BatchCloser
three = 1 ∷ 2 ∷ 3 ∷ []

closed_three : (close text close_one three).0 ≡ 3 ∷ 2 ∷ 1 ∷ []
unfolding close
closed_three = refl

close_lem_example :
    (count 2 (close text close_one three).0 ≡ count 2 three)
    × (any_of ((close text close_one three).1 ∷ []) 7 ≡ any_of (map close_one three) 7)
close_lem_example = close_lem text close_one three 2 7
