-- ===== src/Errorsbp/Suppressors.antt =====
-- errorsbp/suppressor.go: suppressors, of which a nil one suppresses nothing. An error is none if it is nil.
use baseplate_go.Common.{
  ◌≡◌, refl, Bool, true, false, List, [], ◌∷◌, ◌++◌, Option, none, some, if◌then◌else◌, arith,
}
use baseplate_go.Errorsbp.Batch.{Error}

abbrev pub Suppressor : Type 0
Suppressor = Option (Option Error → Bool)

abbrev pub suppress_none : Option Error → Bool
suppress_none e = false

abbrev pub suppress : Suppressor → Option Error → Bool
suppress none e = suppress_none e
suppress (some s) e = s e

abbrev pub wrap : Suppressor → Option Error → Option Error
wrap s e = if suppress s e then none else e

unfoldable pub or_suppressors : List Suppressor → Option Error → Bool
or_suppressors [] e = false
or_suppressors (s ∷ ss) e = let rest = or_suppressors ss e in if suppress s e then true else rest

-- To combine suppressors twice is to combine them all at once, a nil one among them or not.
pub or_suppressors-append :
    (ss ts : List Suppressor) (e : Option Error)
    → or_suppressors (some (or_suppressors ss) ∷ ts) e ≡ or_suppressors (ss ++ ts) e
unfolding or_suppressors
or_suppressors-append [] ts e = refl
or_suppressors-append (s ∷ ss) ts e = ground (arith, or_suppressors-append ss ts e)
