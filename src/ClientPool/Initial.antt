-- ===== src/ClientPool/Initial.antt =====
-- The clients of a new pool (NewChannelPool of clientpool/channel.go).
use baseplate_go.Common.{ℕ, ◌≡◌, List, [], ◌∷◌, ◌++◌}
use baseplate_go.ClientPool.{Outcome, ok, err, panic}
use baseplate_go.ClientPool.New.{
  Attempt, ctx_done, attempt, Made, made, refused, panicked, blocked, pending, Filled, filled,
  gave_up, fault, stuck, more,
}

-- The clients that the opener handed out, in order.
abbrev pub oks : List (Outcome ℕ) → List ℕ
oks [] = []
oks (ok c ∷ us) = c ∷ oks us
oks (err e ∷ us) = oks us
oks (panic ∷ us) = oks us

abbrev pub successes : List Attempt → List ℕ
successes [] = []
successes (ctx_done e ∷ ts) = successes ts
successes (attempt (ok c) ∷ ts) = c ∷ successes ts
successes (attempt (err e) ∷ ts) = successes ts
successes (attempt panic ∷ ts) = successes ts

-- The rounds made are a first part of those given, and `got` is what the opener handed out in them.
abbrev pub Consumes : {R : Type 0} → (List R → List ℕ) → List R → List R → List ℕ → Type 0
Consumes {R} clients rounds rest got =
    (done : List R) × (rounds ≡ done ++ rest) × (got ≡ clients done)

module _ {R : Type 0} (clients : List R → List ℕ) where
  abbrev Grown : List ℕ → List R → Filled R → Type 0
  Grown pool rounds (filled pool' rest) =
      (got : List ℕ) × (pool' ≡ pool ++ got) × Consumes clients rounds rest got
  Grown pool rounds (gave_up e pool' rest) =
      (got : List ℕ) × (pool' ≡ pool ++ got) × Consumes clients rounds rest got
  Grown pool rounds fault = Unit
  Grown pool rounds stuck = Unit
  Grown pool rounds more = Unit

  abbrev Yields : R → List ℕ → Type 0
  Yields r cs = (rs : List R) → clients (r ∷ rs) ≡ cs ++ clients rs

-- The clients in the pool that is returned, or those that the deferred function closes, are just
-- those that the opener handed out in the rounds made.
abbrev pub NoneLost : List Attempt → List (Outcome ℕ) → Made → Type 0
NoneLost ts us (made p ts' us') =
    (got got' : List ℕ) × (p.pool ≡ got ++ got')
    × Consumes successes ts ts' got
    × Consumes oks us us' got'
NoneLost ts us (refused e cs ts' us') =
    (got got' : List ℕ) × (cs ≡ got ++ got')
    × Consumes successes ts ts' got
    × Consumes oks us us' got'
NoneLost ts us panicked = Unit
NoneLost ts us blocked = Unit
NoneLost ts us pending = Unit
