-- ===== src/Retrybp/Backoff.antt =====
-- Bounds on the delays of retrybp/delay.go.
use native.Mathlib.Omega.{pow_step}
use native.Mathlib.Nat.{pow-le-pow_right, mul_assoc}
use baseplate_go.Common.{
  ℕ, zero, suc, ◌+◌, ◌*◌, ◌%◌, ◌^◌, ◌≤◌, ◌<◌, ◌≡◌, sym, ap, ◌∙◌, ltb, if◌then◌else◌, arith,
}
use baseplate_go.Common.Int.{ℤ, ◌-ℤ◌}
use baseplate_go.Retrybp.Delay.{
  CappedExponentialBackoffArgs, base_delay, actual_max_exponent, max_exponent_of, shifted,
}

add_zero : (k : ℕ) → k + 0 ≡ k
add_zero k = omega arith

add_suc : (k e : ℕ) → suc k + e ≡ k + suc e
add_suc k e = omega arith

product_fits : (e b k : ℕ) → b < 2 ^ k → b * 2 ^ e < 2 ^ (k + e)
product_fits zero b k h = grind (arith, (ap (λ j. 2 ^ j) (add_zero k)))
product_fits (suc e) b k h =
    let halves : b * 2 ^ suc e ≡ b * 2 * 2 ^ e =
      ap (λ t. b * t) (pow_step 2 e) ∙ sym (mul_assoc b 2 (2 ^ e)) in
    let bound : b * 2 * 2 ^ e < 2 ^ (suc k + e) =
      product_fits e (b * 2) (suc k) (omega (arith, pow_step 2 k)) in
    let same : 2 ^ (suc k + e) ≡ 2 ^ (k + suc e) = ap (λ j. 2 ^ j) (add_suc k e) in
    omega (arith, halves, bound, same)

-- What is relied on of the floor of math.Log2: below 2 ^ 62 + 1 the rounding to float64 never makes it
-- too small, and it is at most 62.
pub record IsFloorLog2 (floor_log2 : ℕ → ℕ) : Type 0 where
  pub above : (b : ℕ) → b < 2 ^ 62 + 1 → b < 2 ^ (floor_log2 b + 1)
  pub small : (b : ℕ) → b < 2 ^ 62 + 1 → floor_log2 b ≤ 62

module _ (default_delay : ℤ) (floor_log2 : ℕ → ℕ) (ok : IsFloorLog2 floor_log2) where
  -- The exponent that is used at retry n.
  abbrev pub exponent : CappedExponentialBackoffArgs → ℕ → ℕ
  exponent args n =
      let m = max_exponent_of default_delay floor_log2 args in if ltb m n then m else n

  exponent-small :
      (args : CappedExponentialBackoffArgs) (n : ℕ)
      → base_delay default_delay floor_log2 args < 2 ^ 62 + 1
      → exponent args n + floor_log2 (base_delay default_delay floor_log2 args) ≤ 62
  unfolding max_exponent_of actual_max_exponent ◌-ℤ◌
  exponent-small args n h = ground (arith, ok.small (base_delay default_delay floor_log2 args) h)

  shifted-fits :
      (args : CappedExponentialBackoffArgs) (n : ℕ)
      → base_delay default_delay floor_log2 args < 2 ^ 62 + 1
      → base_delay default_delay floor_log2 args * 2 ^ exponent args n < 2 ^ 63
  shifted-fits args n h =
      let b = base_delay default_delay floor_log2 args in
      let x = exponent-small args n h in
      let p = product_fits (exponent args n) b (floor_log2 b + 1) (ok.above b h) in
      let q : 2 ^ (floor_log2 b + 1 + exponent args n) ≤ 2 ^ 63 =
        pow-le-pow_right {n = 2} (omega arith) {i = floor_log2 b + 1 + exponent args n} {j = 63}
          (omega (arith, x)) in
      omega (arith, p, q)

  -- The exponential part never overflows: with an initial delay up to 2 ^ 62 nanoseconds the delay before
  -- the cap, the RetryAfterDuration and the jitter is InitialDelay << min(n, max exponent) as a whole
  -- number, and is below 2 ^ 63.
  pub shifted_exact :
      (args : CappedExponentialBackoffArgs) (n : ℕ)
      → base_delay default_delay floor_log2 args < 2 ^ 62 + 1
      → (shifted default_delay floor_log2 args n
          ≡ base_delay default_delay floor_log2 args * 2 ^ exponent args n)
        × (shifted default_delay floor_log2 args n < 2 ^ 63)
  shifted_exact args n h =
      let fits = shifted-fits args n h in
      let value = base_delay default_delay floor_log2 args * 2 ^ exponent args n in
      let same : value % 2 ^ 64 ≡ value = omega (arith, fits) in (same, omega (arith, same, fits))
