-- ===== src/Randbp/Strings.antt =====
-- GenerateRandomString of randbp/string.go.
-- The lengths are numbers that are not negative. Intn's calls are numbered from the first; `intn k n` is what
-- the k-th returns for n. Intn panics where n is not positive, and the result is none.
use baseplate_go.Common.{
  ℕ, zero, suc, ◌+◌, ◌-◌, ◌≤◌, ◌<◌, ◌≡◌, refl, [], ◌∷◌, Bytes, codes, Option, none, some,
  if◌then◌else◌, ltb, lt→ltb, length, All, arith, ◌⊎◌, inl, inr,
}

-- Base64Runes
abbrev pub base64_runes : Bytes
base64_runes = codes "ABCDEFGHIJKLMNOPQRSTUVWXYZabcdefghijklmnopqrstuvwxyz0123456789-_+/="

pub record RandomStringArgs : Type 0 where
  pub max_length : ℕ
  pub min_length : ℕ
  pub runes : Bytes

abbrev pub runes_of : Bytes → Bytes
runes_of [] = base64_runes
runes_of (r ∷ rs) = r ∷ rs

-- runes[i]; 0 out of range.
abbrev pub rune_at : Bytes → ℕ → ℕ
rune_at [] i = 0
rune_at (r ∷ rs) zero = r
rune_at (r ∷ rs) (suc i) = rune_at rs i

-- The loop over ret: n runes, from the k-th call on.
abbrev pub draw_runes : (ℕ → ℕ → ℕ) → Bytes → ℕ → ℕ → Bytes
draw_runes intn runes k zero = []
draw_runes intn runes k (suc n) =
    rune_at runes (intn k (length runes)) ∷ draw_runes intn runes (suc k) n

unfoldable pub generate_random_string : (ℕ → ℕ → ℕ) → RandomStringArgs → Option Bytes
generate_random_string intn args =
    if ltb args.min_length args.max_length
    then some (
        draw_runes intn (runes_of args.runes) 1
          (intn 0 (args.max_length - args.min_length) + args.min_length))
    else none

-- The rune is one of these.
abbrev pub IsOneOf : Bytes → ℕ → Type 0
IsOneOf [] c = ⊥
IsOneOf (r ∷ rs) c = (c ≡ r) ⊎ IsOneOf rs c

rune_at-IsOneOf : (runes : Bytes) (i : ℕ) → i < length runes → IsOneOf runes (rune_at runes i)
rune_at-IsOneOf [] i h = absurd (omega arith)
rune_at-IsOneOf (r ∷ rs) zero h = inl refl
rune_at-IsOneOf (r ∷ rs) (suc i) h = inr (rune_at-IsOneOf rs i (omega arith))

module _ (intn : ℕ → ℕ → ℕ) (below : (k n : ℕ) → 0 < n → intn k n < n) where
  draw_runes-All :
      (runes : Bytes) (k n : ℕ)
      → 0 < length runes
      → All (IsOneOf runes) (draw_runes intn runes k n) × (length (draw_runes intn runes k n) ≡ n)
  draw_runes-All runes k zero h = (tt, refl)
  draw_runes-All runes k (suc n) h =
      let (all, len) = draw_runes-All runes (suc k) n h in
      (
        (rune_at-IsOneOf runes (intn k (length runes)) (below k (length runes) h), all),
        omega (arith, len),
      )

  runes_of-some : (runes : Bytes) → 0 < length (runes_of runes)
  runes_of-some [] = omega arith
  runes_of-some (r ∷ rs) = omega arith

  -- With a minimum below the maximum, a string is made: its length is at least the minimum and below the
  -- maximum, and each of its runes is one of those given, or of the 67 of the default if none are given.
  pub generate_random_string_lem :
      (args : RandomStringArgs)
      → args.min_length < args.max_length
      → (s : Bytes) × (generate_random_string intn args ≡ some s)
        × (args.min_length ≤ length s)
        × (length s < args.max_length)
        × All (IsOneOf (runes_of args.runes)) s
  unfolding generate_random_string
  generate_random_string_lem args h =
      let n = intn 0 (args.max_length - args.min_length) + args.min_length in
      let (all, len) = draw_runes-All (runes_of args.runes) 1 n (runes_of-some args.runes) in
      let small = below 0 (args.max_length - args.min_length) (omega arith) in
      (
        draw_runes intn (runes_of args.runes) 1 n,
        rw (lt→ltb args.min_length args.max_length h),
        omega (arith, len),
        omega (arith, len, small),
        all,
      )
