-- ===== src/Std/Instant.antt =====
-- time.Time as the number of nanoseconds since Go's zero time, 1 January of the year 1 (UTC): the
-- zero value is 0, and instants before the year 1 are left out.
use baseplate_go.Common.{ℕ, ◌+◌, ◌-◌, ◌/◌, ◌%◌, ◌^◌, Bool, ltb, ◌==◌}
use baseplate_go.Common.Int.{ℤ, sub_ℕ}

abbrev pub Instant : Type 0
Instant = ℕ

abbrev pub second : ℕ
second = 1_000_000_000

-- The Unix epoch, in seconds since the zero time.
abbrev pub epoch : ℕ
epoch = 62_135_596_800

abbrev pub is_zero : Instant → Bool
is_zero t = t == 0

abbrev pub before : Instant → Instant → Bool
before t u = ltb t u

-- t.Unix(): the seconds since the epoch, rounded down.
abbrev pub unix : Instant → ℤ
unix t = sub_ℕ (t / second) epoch

-- uint32(t.Unix()): the low 32 bits of the two's complement.
abbrev pub unix32 : Instant → ℕ
unix32 t = (t / second + (2 ^ 64 - epoch)) % 2 ^ 32
