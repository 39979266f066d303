-- ===== src/Signing/Header.antt =====
-- The 7 bytes of the header of signing/v1.go.
use baseplate_go.Common.{
  ℕ, ◌+◌, ◌^◌, ◌<◌, ◌≡◌, refl, ◌∷◌, ◌++◌, some, Bytes, length, take, drop, arith, All,
}
use baseplate_go.Std.Base64.{IsByte}
use baseplate_go.Signing.{header, read_header}

pub read-header :
    (v e : ℕ) (rest : Bytes) → e < 2 ^ 32 → read_header (header v e ++ rest) ≡ some (v, e)
unfolding read_header header
read-header v e rest h = ground arith

pub take-header : (v e : ℕ) (rest : Bytes) → take 7 (header v e ++ rest) ≡ header v e
unfolding header
take-header v e rest = refl

pub drop-header : (v e : ℕ) (rest : Bytes) → drop 7 (header v e ++ rest) ≡ rest
unfolding header
drop-header v e rest = refl

pub length-header : (v e : ℕ) (rest : Bytes) → length (header v e ++ rest) ≡ 7 + length rest
unfolding header
length-header v e rest = omega arith

pub header-IsByte : (v e : ℕ) → IsByte v → All IsByte (header v e)
unfolding header
header-IsByte v e h = omega arith

-- The version is the first byte.
pub read_header-first : (v w e : ℕ) (raw : Bytes) → read_header (v ∷ raw) ≡ some (w, e) → v ≡ w
unfolding read_header
read_header-first v w e (_ ∷ _ ∷ a ∷ b ∷ c ∷ d ∷ _) h = ground arith
read_header-first v w e _ h = cc
