-- ===== src/Timebp/RoundTrip.antt =====
-- What comes back of a time or a duration that is written and read (timebp/microsecond.go and
-- timebp/millisecond.go).
use baseplate_go.Common.{
  ◌+◌, ◌*◌, ◌≡◌, refl, ap, true, false, Bool-cases, inl, inr, [], ◌∷◌, Bytes, bytes_eq,
  bytes_eq_iff, is_empty, none, some, arith, if◌then◌else◌,
}
use baseplate_go.Common.Int.{
  ℤ, pos, negsuc, ◌+ℤ◌, ◌-ℤ◌, pos_part, neg_part, eq_of_parts, +ℤ_parts, -ℤ_parts,
}
use baseplate_go.Std.Int64.{show, Fits}
use baseplate_go.Std.Decimal.{parse_int, parse_int-show_all}
use baseplate_go.Timebp.{
  Precision, micro, milli, is_zero, floor_div, times, unix_units, of_unix_units, time_to_units,
  units_to_time, null, marshal_text, marshal_json, unmarshal_text, unmarshal_json,
}

-- The time without what is below a whole unit.
abbrev pub rounded_down : Precision → ℤ → ℤ
rounded_down micro t = times (floor_div t 1_000) 1_000
rounded_down milli t = times (floor_div t 1_000_000) 1_000_000

times_parts :
    (z : ℤ)
    → pos_part (times z 1_000) + neg_part z * 1_000 ≡ neg_part (times z 1_000) + pos_part z * 1_000
times_parts (pos n) = omega arith
times_parts (negsuc n) = omega arith

times_parts' :
    (z : ℤ)
    → pos_part (times z 1_000_000) + neg_part z * 1_000_000
      ≡ neg_part (times z 1_000_000) + pos_part z * 1_000_000
times_parts' (pos n) = omega arith
times_parts' (negsuc n) = omega arith

shift_back :
    (q : ℤ)
    → pos 62_135_596_800_000_000_000 +ℤ times (q -ℤ pos 62_135_596_800_000_000) 1_000
      ≡ times q 1_000
shift_back q =
    let r = q -ℤ pos 62_135_596_800_000_000 in
    eq_of_parts _ _ (
      omega (
        arith,
        +ℤ_parts (pos 62_135_596_800_000_000_000) (times r 1_000),
        -ℤ_parts q (pos 62_135_596_800_000_000),
        times_parts r,
        times_parts q,
      ))

shift_back' :
    (q : ℤ)
    → pos 62_135_596_800_000_000_000 +ℤ times (q -ℤ pos 62_135_596_800_000) 1_000_000
      ≡ times q 1_000_000
shift_back' q =
    let r = q -ℤ pos 62_135_596_800_000 in
    eq_of_parts _ _ (
      omega (
        arith,
        +ℤ_parts (pos 62_135_596_800_000_000_000) (times r 1_000_000),
        -ℤ_parts q (pos 62_135_596_800_000),
        times_parts' r,
        times_parts' q,
      ))

of_unix-unix : (p : Precision) (t : ℤ) → of_unix_units p (unix_units p t) ≡ rounded_down p t
of_unix-unix micro t = shift_back (floor_div t 1_000)
of_unix-unix milli t = shift_back' (floor_div t 1_000_000)

-- What comes back.
abbrev pub kept : Precision → ℤ → ℤ
kept p t =
    if is_zero t then pos 0 else if is_zero (time_to_units p t) then pos 0 else rounded_down p t

convert :
    (p : Precision) (t : ℤ) → is_zero t ≡ false → units_to_time p (time_to_units p t) ≡ kept p t
unfolding units_to_time time_to_units
convert p t h = rw h (ap (λ x. if is_zero (unix_units p t) then pos 0 else x) (of_unix-unix p t))

parse_int-nil : parse_int [] ≡ none
unfolding parse_int
parse_int-nil = refl

parse_int-null : parse_int null ≡ none
unfolding parse_int
parse_int-null = refl

is_empty-nil : (s : Bytes) → is_empty s ≡ true → s ≡ []
is_empty-nil [] h = refl
is_empty-nil (c ∷ cs) h = absurd (cc h)

-- A number that is written is not what cannot be read.
written-ne : (z : ℤ) (s : Bytes) → Fits z → parse_int s ≡ none → show z ≡ s → ⊥
written-ne z s fits bad e = cc (parse_int-show_all z fits, ap parse_int e, bad)

show-ne_empty : (z : ℤ) → Fits z → is_empty (show z) ≡ false
show-ne_empty z fits = elim (Bool-cases (is_empty (show z))) [
  | inl e ↦ absurd (written-ne z [] fits parse_int-nil (is_empty-nil (show z) e))
  | inr e ↦ e
]

show-ne_null : (z : ℤ) → Fits z → bytes_eq (show z) null ≡ false
show-ne_null z fits = elim (Bool-cases (bytes_eq (show z) null)) [
  | inl e ↦ absurd (written-ne z null fits parse_int-null ((bytes_eq_iff (show z) null).0 e))
  | inr e ↦ e
]

read_back :
    (p : Precision) (t : ℤ)
    → is_zero t ≡ false
    → Fits (time_to_units p t)
    → unmarshal_text p (show (time_to_units p t)) ≡ some (kept p t)
unfolding unmarshal_text
read_back p t h fits =
    rw (show-ne_empty (time_to_units p t) fits)
      (rw (parse_int-show_all (time_to_units p t) fits) (ap some (convert p t h)))

empty_back : (p : Precision) → unmarshal_text p [] ≡ some (pos 0)
unfolding unmarshal_text
empty_back p = refl

-- A time whose microseconds or milliseconds since the Unix epoch an int64 holds comes back from its text and
-- from its JSON rounded down to a whole unit, but one in the first unit of the epoch comes back, like the zero
-- time, as the zero time: the epoch itself is lost.
pub timestamp_roundtrip :
    (p : Precision) (t : ℤ)
    → Fits (time_to_units p t)
    → (unmarshal_text p (marshal_text p t) ≡ some (kept p t))
      × (unmarshal_json p (marshal_json p t) ≡ some (kept p t))
unfolding marshal_text marshal_json unmarshal_json bytes_eq
timestamp_roundtrip p t fits = elim (Bool-cases (is_zero t)) [
  | inl e ↦ rw e (empty_back p, refl)
  | inr e ↦
      let back : unmarshal_text p (show (time_to_units p t)) ≡ some (kept p t) =
        read_back p t e fits in
      rw e (rw e at back, rw (show-ne_null (time_to_units p t) fits) (rw e at back))
]
