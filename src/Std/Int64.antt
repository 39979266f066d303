-- ===== src/Std/Int64.antt =====
-- Go's int on a 64-bit machine: a signed number, wrapped around after each operation.
use baseplate_go.Common.{
  ℕ, zero, suc, refl, [], ◌∷◌, ◌++◌, Bytes, codes, ◌/◌, ◌+◌, ◌-◌, ◌%◌, ◌^◌, ◌≡◌, ltb, if◌then◌else◌,
  arith,
}
use baseplate_go.Common.Int.{ℤ, pos, negsuc, ◌≤ℤ◌, ◌<ℤ◌}

-- The number with the bit pattern `n`.
abbrev pub signed_64 : ℕ → ℤ
signed_64 n = if ltb n (2 ^ 63) then pos n else negsuc (2 ^ 64 - 1 - n)

abbrev pub bits_64 : ℤ → ℕ
bits_64 (pos n) = n % 2 ^ 64
bits_64 (negsuc n) = 2 ^ 64 - 1 - n % 2 ^ 64

unfoldable pub wrap_64 : ℤ → ℤ
wrap_64 z = signed_64 (bits_64 z)

-- The numbers that an int holds.
abbrev pub Fits : ℤ → Type 0
Fits z = (negsuc (2 ^ 63 - 1) ≤ℤ z) × (z <ℤ pos (2 ^ 63))

pub wrap_64_id : (z : ℤ) → Fits z → wrap_64 z ≡ z
unfolding wrap_64
wrap_64_id (pos n) h = ground arith
wrap_64_id (negsuc n) h = ground arith

-- The decimal text; an int has at most 19 digits.
unfoldable pub digits : ℕ → ℕ → Bytes
digits zero n = []
digits (suc f) n =
    let rest = digits f (n / 10) in
    if ltb n 10 then (b'0' + n) ∷ [] else rest ++ (b'0' + n % 10) ∷ []

unfoldable pub show : ℤ → Bytes
unfolding digits
show (pos n) = digits 20 n
show (negsuc n) = b'-' ∷ digits 20 (suc n)

shows : show (negsuc 119) ≡ codes "-120"
unfolding show
shows = refl
