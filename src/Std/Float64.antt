-- ===== src/Std/Float64.antt =====
-- Go's float64, as far as the experiments use it. A finite number is a whole multiple of 2 ^ -1074, and
-- stands as that multiple; zero has no sign here. A result is rounded to 53 significant bits, to the
-- nearest and ties to even.
use baseplate_go.Common.{
  ℕ, zero, suc, ◌+◌, ◌-◌, ◌*◌, ◌/◌, ◌%◌, ◌^◌, ◌≡◌, refl, Bool, true, false, ◌&&◌, ltb, leb, ◌==◌,
  if◌then◌else◌,
}
use baseplate_go.Common.Int.{ℤ, pos, negsuc, ◌+ℤ◌, ltb_ℤ, leb_ℤ}

pub data Float64 : Type 0 where
  finite : ℤ → Float64
  pos_inf neg_inf nan : Float64

abbrev pub is_neg : ℤ → Bool
is_neg (pos n) = false
is_neg (negsuc n) = true

abbrev pub abs : ℤ → ℕ
abs (pos n) = n
abs (negsuc n) = suc n

abbrev pub with_sign : Bool → ℕ → ℤ
with_sign false n = pos n
with_sign true zero = pos 0
with_sign true (suc n) = negsuc n

-- How many low bits to drop so that 53 are left; the first argument bounds the bits that there are.
excess : ℕ → ℕ → ℕ
excess zero n = 0
excess (suc f) n = elim (ltb n (2 ^ 53)) [ true ↦ 0 | false ↦ suc (excess f (n / 2)) ]

-- n / 2 ^ s to the nearest whole number.
half_even : ℕ → ℕ → ℕ
half_even n s =
    let q = n / 2 ^ s in
    let r = n % 2 ^ s in
    if ltb (2 * r) (2 ^ s) then q else if 2 * r == 2 ^ s then q + q % 2 else q + 1

-- n / 2 ^ k, rounded: 53 bits, and nothing below the unit. Products have fewer than 4,200 bits.
unfoldable pub rounded : ℕ → ℕ → ℕ
unfolding excess half_even
rounded k n =
    let e = excess 4_200 n in let s = if ltb k e then e else k in half_even n s * 2 ^ (s - k)

abbrev pub inf : Bool → Float64
inf true = neg_inf
inf false = pos_inf

abbrev pub of_rounded : Bool → ℕ → Float64
of_rounded negative n = if leb (2 ^ 2_098) n then inf negative else finite (with_sign negative n)

-- float64(z)
unfoldable pub of_int : ℤ → Float64
of_int z = of_rounded (is_neg z) (rounded 0 (abs z * 2 ^ 1_074))

abbrev pub neg : Float64 → Float64
neg (finite (pos zero)) = finite (pos 0)
neg (finite (pos (suc n))) = finite (negsuc n)
neg (finite (negsuc n)) = finite (pos (suc n))
neg pos_inf = neg_inf
neg neg_inf = pos_inf
neg nan = nan

unfoldable pub add : Float64 → Float64 → Float64
add (finite x) (finite y) = of_rounded (is_neg (x +ℤ y)) (rounded 0 (abs (x +ℤ y)))
add (finite x) pos_inf = pos_inf
add (finite x) neg_inf = neg_inf
add pos_inf (finite y) = pos_inf
add pos_inf pos_inf = pos_inf
add neg_inf (finite y) = neg_inf
add neg_inf neg_inf = neg_inf
add _ _ = nan

abbrev pub sub : Float64 → Float64 → Float64
sub x y = add x (neg y)

abbrev pub differ : Bool → Bool → Bool
differ true true = false
differ false false = false
differ _ _ = true

-- A number that is not zero times an infinity.
abbrev pub times_inf : ℤ → Bool → Float64
times_inf x negative = if abs x == 0 then nan else inf (differ (is_neg x) negative)

unfoldable pub mul : Float64 → Float64 → Float64
mul (finite x) (finite y) =
    of_rounded (differ (is_neg x) (is_neg y)) (rounded 1_074 (abs x * abs y))
mul (finite x) pos_inf = times_inf x false
mul (finite x) neg_inf = times_inf x true
mul pos_inf (finite y) = times_inf y false
mul neg_inf (finite y) = times_inf y true
mul pos_inf pos_inf = pos_inf
mul neg_inf neg_inf = pos_inf
mul pos_inf neg_inf = neg_inf
mul neg_inf pos_inf = neg_inf
mul _ _ = nan

-- The quotient with 101 more bits, the last of them set if anything is left over.
long_quotient : ℕ → ℕ → ℕ
long_quotient x y = let n = x * 2 ^ 1_174 in 2 * (n / y) + (if n % y == 0 then 0 else 1)

-- A finite number over one that is not zero.
abbrev quotient : ℤ → ℤ → Float64
quotient x y =
    of_rounded (differ (is_neg x) (is_neg y)) (rounded 101 (long_quotient (abs x) (abs y)))

-- x / y; the sign of a zero that is divided by is taken to be positive.
unfoldable pub div : Float64 → Float64 → Float64
unfolding long_quotient
div (finite x) (finite y) = if abs y == 0 then times_inf x false else quotient x y
div (finite x) pos_inf = finite (pos 0)
div (finite x) neg_inf = finite (pos 0)
div pos_inf (finite y) = inf (is_neg y)
div neg_inf (finite y) = inf (differ true (is_neg y))
div _ _ = nan

-- x < y and x <= y: false if one is not a number.
abbrev pub lt : Float64 → Float64 → Bool
lt (finite x) (finite y) = ltb_ℤ x y
lt (finite x) pos_inf = true
lt neg_inf (finite y) = true
lt neg_inf pos_inf = true
lt _ _ = false

-- x == y
abbrev pub eq : Float64 → Float64 → Bool
eq (finite x) (finite y) = leb_ℤ x y && leb_ℤ y x
eq pos_inf pos_inf = true
eq neg_inf neg_inf = true
eq _ _ = false

-- The smallest int, which amd64 gives for a number out of range.
abbrev pub min_int : ℤ
min_int = negsuc (2 ^ 63 - 1)

-- int(x), towards zero.
unfoldable pub to_int : Float64 → ℤ
to_int (finite x) =
    let n = abs x / 2 ^ 1_074 in if ltb n (2 ^ 63) then with_sign (is_neg x) n else min_int
to_int _ = min_int

-- 0.29 * 100 is 28.999999999999996.
truncates :
    to_int (mul (finite (pos (5_224_175_567_749_775 * 2 ^ 1_020))) (of_int (pos 100))) ≡ pos 28
unfolding to_int mul of_int rounded
truncates = refl

-- 0.1 * 1000 is 100.
rounds_up :
    to_int (mul (finite (pos (7_205_759_403_792_794 * 2 ^ 1_018))) (of_int (pos 1_000))) ≡ pos 100
unfolding to_int mul of_int rounded
rounds_up = refl

-- 1 / 3 is 0.333333333333333314829616256247390992939472198486328125.
third : div (of_int (pos 1)) (of_int (pos 3)) ≡ finite (pos (6_004_799_503_160_661 * 2 ^ 1_020))
unfolding div of_int rounded
third = refl
