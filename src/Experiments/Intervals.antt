-- ===== src/Experiments/Intervals.antt =====
-- The buckets of the variants of a multi-variant experiment (experiments/variants.go).
use baseplate_go.Common.{
  ℕ, ◌+◌, ◌^◌, ◌≤◌, ◌<◌, ◌≡◌, refl, ap, List, [], ◌∷◌, ◌++◌, some, arith, All,
}
use baseplate_go.Common.Int.{ℤ, pos, negsuc, pos_part, ◌≤ℤ◌, ◌+ℤ◌}
use baseplate_go.Std.Int64.{wrap_64, wrap_64_id}
use baseplate_go.Experiments.Variants.{Variant, multi, scaled, choose_variant, choose_multi}

add_part : (o : ℕ) (z : ℤ) → pos 0 ≤ℤ z → pos o +ℤ z ≡ pos (o + pos_part z)
unfolding ◌+ℤ◌
add_part o (pos n) h = ground arith
add_part o (negsuc n) h = absurd (omega arith)

module _ (buckets : ℤ) where
  abbrev pub NonNegative : Variant → Type 0
  NonNegative v = pos 0 ≤ℤ scaled v.size buckets

  -- The number of buckets of a variant, and of the variants of a list.
  abbrev pub width : Variant → ℕ
  width v = pos_part (scaled v.size buckets)

  abbrev pub widths : List Variant → ℕ
  widths [] = 0
  widths (v ∷ vs) = width v + widths vs

  next_offset :
      (o : ℕ) (v : Variant)
      → NonNegative v
      → o + width v < 2 ^ 63
      → wrap_64 (pos o +ℤ scaled v.size buckets) ≡ pos (o + width v)
  next_offset o v n h =
      rw (add_part o (scaled v.size buckets) n)
        (wrap_64_id (pos (o + width v)) (omega arith, omega arith))

  choose_from :
      (o b : ℕ) (xs ys : List Variant) (v : Variant)
      → All NonNegative xs
      → NonNegative v
      → o + widths xs + width v < 2 ^ 63
      → o + widths xs ≤ b
      → b < o + widths xs + width v
      → choose_multi (pos o) (xs ++ v ∷ ys) buckets (pos b) ≡ v.name
  unfolding choose_multi
  choose_from o b [] ys v ns n h low high = ground (arith, next_offset o v n (omega arith))
  choose_from o b (x ∷ xs) ys v (m, ms) n h low high = ground (
    arith,
    next_offset o x m (omega arith),
    choose_from (o + width x) b xs ys v ms n (omega arith) (omega arith) (omega arith),
  )

  choose_after :
      (o b : ℕ) (xs : List Variant)
      → All NonNegative xs
      → o + widths xs < 2 ^ 63
      → o + widths xs ≤ b
      → choose_multi (pos o) xs buckets (pos b) ≡ ""
  unfolding choose_multi
  choose_after o b [] ns h low = refl
  choose_after o b (x ∷ xs) (m, ms) h low = ground (
    arith,
    next_offset o x m (omega arith),
    choose_after (o + width x) b xs ms (omega arith) (omega arith),
  )

  -- Variants whose sizes are not negative, and are together less than 2 ^ 63 buckets, share the buckets in
  -- their order: each has the interval that begins where those before it end, and has its size in
  -- buckets.
  pub multi_variant_interval :
      (xs ys : List Variant) (v : Variant) (b : ℕ)
      → All NonNegative xs
      → NonNegative v
      → widths xs + width v < 2 ^ 63
      → widths xs ≤ b
      → b < widths xs + width v
      → choose_variant (multi (xs ++ v ∷ ys) buckets) (pos b) ≡ some v.name
  unfolding choose_variant
  multi_variant_interval xs ys v b ns n h low high =
      ap some (choose_from 0 b xs ys v ns n (omega arith) (omega arith) (omega arith))

  -- A bucket after the intervals of all the variants has none.
  pub multi_variant_rest :
      (xs : List Variant) (b : ℕ)
      → All NonNegative xs
      → widths xs < 2 ^ 63
      → widths xs ≤ b
      → choose_variant (multi xs buckets) (pos b) ≡ some ""
  unfolding choose_variant
  multi_variant_rest xs b ns h low = ap some (choose_after 0 b xs ns (omega arith) (omega arith))
