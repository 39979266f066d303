-- ===== src/Common/Maps.antt =====
-- Go maps from strings: association lists, in the order in which a `range` visits them.
use mathlib.Core.Path.{◌≡◌, refl}
use mathlib.Core.Logic.{◌≢◌}
use mathlib.Core.Bool.{Bool, true, false}
use mathlib.Core.List.{List, [], ◌∷◌}
use mathlib.Core.Option.{Option, none, some}
use native.Mathlib.Omega.{arith}
use Prim.Native.String.{String}
use text.Mathlib.Text.{◌==◌}
use text.Mathlib.TextEquality.{eq_iff}
use baseplate_go.Common.Tests.{if◌then◌else◌}

abbrev pub Map : Type 0 → Type 0
Map V = List (String × V)

module _ {V : Type 0} where
  unfoldable pub lookup : String → Map V → Option V
  lookup wanted [] = none
  lookup wanted ((key, value) ∷ others) =
      let rest = lookup wanted others in if key == wanted then some value else rest

  unfoldable pub insert : String → V → Map V → Map V
  insert new value [] = (new, value) ∷ []
  insert new value ((key, old) ∷ others) =
      let rest = insert new value others in
      if key == new then (new, value) ∷ others else (key, old) ∷ rest

  pub lookup-insert :
      (new wanted : String) (value : V) (m : Map V)
      → lookup wanted (insert new value m) ≡ (if new == wanted then some value else lookup wanted m)
  unfolding lookup insert
  lookup-insert new wanted value [] = refl
  lookup-insert new wanted value ((key, old) ∷ others) = ground (
    arith,
    eq_iff new wanted,
    eq_iff key new,
    eq_iff key wanted,
    lookup-insert new wanted value others,
  )

  -- The second result of `v, ok := m[k]`.
  abbrev pub has : String → Map V → Bool
  has k m = elim (lookup k m) [ none ↦ false | some v ↦ true ]

  -- No key twice, as in a Go map.
  abbrev pub Distinct : Map V → Type 0
  Distinct [] = Unit
  Distinct ((k, v) ∷ m) = (lookup k m ≡ none) × Distinct m

pub eq_false : {j k : String} → j ≢ k → (j == k) ≡ false
eq_false {j} {k} h = ground (arith, eq_iff j k)
