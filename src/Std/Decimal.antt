-- ===== src/Std/Decimal.antt =====
-- strconv.ParseInt(s, 10, 64): an optional sign and decimal digits, at least one, of a number that an int64
-- holds. The result is none on an error.
use baseplate_go.Common.{
  ℕ, zero, suc, ◌+◌, ◌-◌, ◌*◌, ◌/◌, ◌%◌, ◌^◌, ◌<◌, ◌≡◌, refl, ap, ◌∙◌, Bool, ◌&&◌, [], ◌∷◌, ◌++◌,
  Bytes, Option, none, some, ltb, leb, Bool-cases, inl, inr, arith, if◌then◌else◌, ◌==◌,
}
use baseplate_go.Common.Int.{ℤ, pos, negsuc}
use baseplate_go.Std.Int64.{digits, show, Fits}

abbrev pub is_digit : ℕ → Bool
is_digit c = leb b'0' c && leb c b'9'

unfoldable pub parse_digits : ℕ → Bytes → Option ℕ
parse_digits acc [] = some acc
parse_digits acc (c ∷ cs) =
    let rest = parse_digits (acc * 10 + (c - b'0')) cs in if is_digit c then rest else none

abbrev negative : ℕ → ℤ
negative zero = pos 0
negative (suc n) = negsuc n

-- The limits are 2 ^ 63 - 1 and -(2 ^ 63).
abbrev pub in_range : ℕ → Option ℕ → Option ℕ
in_range bound none = none
in_range bound (some n) = if ltb n bound then some n else none

abbrev pub parse_unsigned : ℕ → Bytes → Option ℕ
parse_unsigned bound [] = none
parse_unsigned bound (c ∷ cs) = in_range bound (parse_digits 0 (c ∷ cs))

abbrev pub as_pos : Option ℕ → Option ℤ
as_pos none = none
as_pos (some n) = some (pos n)

abbrev pub as_neg : Option ℕ → Option ℤ
as_neg none = none
as_neg (some n) = some (negative n)

unfoldable pub parse_int : Bytes → Option ℤ
unfolding parse_digits
parse_int [] = none
parse_int (c ∷ cs) =
    if c == b'-'
    then as_neg (parse_unsigned (2 ^ 63 + 1) cs)
    else if c == b'+'
    then as_pos (parse_unsigned (2 ^ 63) cs)
    else as_pos (parse_unsigned (2 ^ 63) (c ∷ cs))

abbrev power_10 : ℕ → ℕ
power_10 zero = 1
power_10 (suc f) = 10 * power_10 f

parse_digits-snoc :
    (acc : ℕ) (xs : Bytes) (a d : ℕ)
    → parse_digits acc xs ≡ some a
    → d < 10
    → parse_digits acc (xs ++ (b'0' + d) ∷ []) ≡ some (a * 10 + d)
unfolding parse_digits
parse_digits-snoc acc [] a d h small = ground arith
parse_digits-snoc acc (x ∷ xs) a d h small =
    ground (arith, parse_digits-snoc (acc * 10 + (x - b'0')) xs a d)

parse_digits-digits : (f n : ℕ) → n < power_10 f → parse_digits 0 (digits f n) ≡ some n
unfolding digits parse_digits
parse_digits-digits zero n h = ground arith
parse_digits-digits (suc f) n h = elim (Bool-cases (ltb n 10)) [
  | inl e ↦ rw e (ground arith)
  | inr e ↦ rw e (
      parse_digits-snoc 0 (digits f (n / 10)) (n / 10) (n % 10)
        (parse_digits-digits f (n / 10) (omega arith)) (omega arith)
      ∙ ap some (omega arith))
]

snoc-ne_nil : (xs : Bytes) (c : ℕ) → xs ++ c ∷ [] ≡ [] → ⊥
snoc-ne_nil [] c h = cc h
snoc-ne_nil (x ∷ xs) c h = cc h

digits-ne_nil : (f n : ℕ) → digits (suc f) n ≡ [] → ⊥
unfolding digits
digits-ne_nil f n = elim (Bool-cases (ltb n 10)) [
  | inl e ↦ rw e (λ h. cc h)
  | inr e ↦ rw e (snoc-ne_nil (digits f (n / 10)) (b'0' + n % 10))
]

parse_int-pos :
    (s : Bytes) (n : ℕ)
    → (s ≡ [] → ⊥)
    → parse_digits 0 s ≡ some n
    → n < 2 ^ 63
    → parse_int s ≡ some (pos n)
unfolding parse_int
parse_int-pos [] n some_ h small = absurd (some_ refl)
parse_int-pos (c ∷ cs) n some_ h small = ground arith

-- Reading back a number that is not negative.
pub parse_int-show : (n : ℕ) → n < 2 ^ 63 → parse_int (show (pos n)) ≡ some (pos n)
unfolding show
parse_int-show n h =
    parse_int-pos (digits 20 n) n (digits-ne_nil 19 n) (parse_digits-digits 20 n (omega arith)) h

parse_int-neg :
    (s : Bytes) (n : ℕ)
    → (s ≡ [] → ⊥)
    → parse_digits 0 s ≡ some (suc n)
    → n < 2 ^ 63
    → parse_int (b'-' ∷ s) ≡ some (negsuc n)
unfolding parse_int
parse_int-neg [] n some_ h small = absurd (some_ refl)
parse_int-neg (c ∷ cs) n some_ h small = rw h (ground arith)

-- Reading back any number that an int64 holds.
pub parse_int-show_all : (z : ℤ) → Fits z → parse_int (show z) ≡ some z
unfolding show
parse_int-show_all (pos n) h = parse_int-show n (omega arith)
parse_int-show_all (negsuc n) h =
    parse_int-neg (digits 20 (suc n)) n (digits-ne_nil 19 (suc n))
      (parse_digits-digits 20 (suc n) (omega arith)) (omega arith)
