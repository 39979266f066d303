-- ===== src/Randbp/Tests.antt =====
-- Tests of randbp.
use baseplate_go.Common.{
  ℕ, ◌+◌, ◌%◌, ◌≡◌, ◌≤◌, ◌<◌, refl, codes, Bytes, All, some, none, length, arith,
}
use baseplate_go.Common.Int.{pos, ◌+ℤ◌}
use baseplate_go.Std.Float64.{of_int, mul, add, to_int, rounded}
use baseplate_go.Std.Instant.{second}
use baseplate_go.Randbp.{jitter_duration, jitter_ratio, float_0, float_1}
use baseplate_go.Randbp.Strings.{
  RandomStringArgs, generate_random_string, IsOneOf, runes_of, generate_random_string_lem,
}

abbrev args : RandomStringArgs
args = record { max_length = 4; min_length = 2; runes = codes "ab" }

abbrev intn : ℕ → ℕ → ℕ
intn k n = k % n

below : (k n : ℕ) → 0 < n → intn k n < n
below k n h = grind arith

two_runes : generate_random_string intn args ≡ some (codes "ba")
unfolding generate_random_string
two_runes = refl

same_lengths : generate_random_string intn (record args { max_length = 2 }) ≡ none
unfolding generate_random_string
same_lengths = refl

never_empty :
    (s : Bytes) × (generate_random_string intn args ≡ some s)
    × (2 ≤ length s)
    × (length s < 4)
    × All (IsOneOf (runes_of args.runes)) s
never_empty = generate_random_string_lem intn below args (omega arith)

no_jitter : jitter_duration float_0 (pos second) float_0 ≡ pos second
unfolding jitter_duration jitter_ratio mul of_int to_int rounded
no_jitter = refl

full_jitter : jitter_duration float_0 (pos second) float_1 ≡ pos (second + second)
unfolding jitter_duration jitter_ratio mul add of_int to_int rounded ◌+ℤ◌
full_jitter = refl
