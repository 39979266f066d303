-- ===== src/Common/Count.antt =====
-- How often a number stands in a list: the multiset view of clients and messages.
use Prim.Native.Nat.{ℕ, ◌+◌}
use mathlib.Core.Path.{◌≡◌}
use mathlib.Core.List.{List, [], ◌∷◌, ◌++◌}
use native.Mathlib.Omega.{arith}
use baseplate_go.Common.Tests.{◌==◌, if◌then◌else◌}

abbrev pub count : ℕ → List ℕ → ℕ
count client [] = 0
count client (c ∷ others) = (if c == client then 1 else 0) + count client others

pub count-append :
    (client : ℕ) (here there : List ℕ)
    → count client (here ++ there) ≡ count client here + count client there
count-append client [] there = omega arith
count-append client (c ∷ others) there = omega (arith, count-append client others there)
