-- ===== src/Signing/ToyMac.antt =====
-- A function that is as HMAC-SHA256 is documented to be, for runs of the code of signing/v1.go.
use baseplate_go.Common.{ℕ, zero, suc, ◌≡◌, refl, ◌+◌, ◌%◌, ◌<◌, [], ◌∷◌, Bytes, length, arith, All}
use baseplate_go.Std.Base64.{IsByte}
use baseplate_go.Signing.RoundTrip.{IsHmac}

abbrev pub sum : Bytes → ℕ
sum [] = 0
sum (b ∷ bs) = b + sum bs

abbrev pub repeat : ℕ → ℕ → Bytes
repeat zero b = []
repeat (suc n) b = b ∷ repeat n b

abbrev pub mac : Bytes → Bytes → Bytes
mac key message = repeat 32 ((7 + sum key + sum message) % 256)

length-repeat : (n b : ℕ) → length (repeat n b) ≡ n
length-repeat zero b = refl
length-repeat (suc n) b = omega (arith, length-repeat n b)

repeat-IsByte : (n b : ℕ) → b < 256 → All IsByte (repeat n b)
repeat-IsByte zero b h = tt
repeat-IsByte (suc n) b h = (h, repeat-IsByte n b h)

pub mac-IsHmac : IsHmac mac
mac-IsHmac = record {
  size = λ key message. length-repeat 32 ((7 + sum key + sum message) % 256);
  bytes = λ key message. repeat-IsByte 32 ((7 + sum key + sum message) % 256) (omega arith);
}
