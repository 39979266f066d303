-- ===== src/Thriftbp/Budget.antt =====
-- The deadline budget: SetDeadlineBudget of thriftbp/client_middlewares.go, and ExtractDeadlineBudget of
-- thriftbp/server_middlewares.go.
use baseplate_go.Common.{
  ℕ, suc, ◌+◌, ◌-◌, ◌*◌, ◌/◌, Bytes, Option, none, some, ltb, ◌^◌, if◌then◌else◌,
}
use baseplate_go.Common.Int.{ℤ, pos, negsuc, ◌+ℤ◌, sub_ℕ, ltb_ℤ, leb_ℤ}
use baseplate_go.Std.Instant.{Instant}
use baseplate_go.Std.Int64.{wrap_64, show}
use baseplate_go.Std.Decimal.{parse_int}
use baseplate_go.Thriftbp.Headers.{Thrift, add_client_header, header, header_deadline_budget}

abbrev pub millisecond : ℕ
millisecond = 1_000_000

-- time.Until, which holds at the largest and the smallest Duration.
abbrev pub saturated : ℤ → ℤ
saturated (pos n) = if ltb n (2 ^ 63) then pos n else pos (2 ^ 63 - 1)
saturated (negsuc n) = if ltb n (2 ^ 63) then negsuc n else negsuc (2 ^ 63 - 1)

abbrev pub until : Instant → Instant → ℤ
until now deadline = saturated (sub_ℕ deadline now)

-- Duration.Milliseconds, towards zero.
abbrev pub milliseconds : ℤ → ℤ
milliseconds (pos n) = pos (n / millisecond)
milliseconds (negsuc n) =
    if ltb (suc n) millisecond then pos 0 else negsuc (suc n / millisecond - 1)

unfoldable pub budget_of : Instant → Instant → ℤ
budget_of now deadline =
    let ms = milliseconds (wrap_64 (until now deadline +ℤ pos (millisecond - 1))) in
    if ltb_ℤ ms (pos 1) then pos 1 else ms

-- Whether the call is made, with this context, or fails with the context's error.
pub data Next (Ctx : Type 0) : Type 0 where
  calls_with : Ctx → Next Ctx
  fails_with : ℕ → Next Ctx

module _ {Ctx : Type 0} (t : Thrift Ctx) where
  abbrev pub with_budget : Instant → Option Instant → Ctx → Ctx
  with_budget now none ctx = ctx
  with_budget now (some deadline) ctx =
      add_client_header t header_deadline_budget (show (budget_of now deadline)) ctx

  -- SetDeadlineBudget: the error of the context, and its deadline.
  abbrev pub set_deadline_budget : Instant → Option ℕ → Option Instant → Ctx → Next Ctx
  set_deadline_budget now (some e) deadline ctx = fails_with e
  set_deadline_budget now none deadline ctx = calls_with (with_budget now deadline ctx)

  -- time.Duration(v) * time.Millisecond
  abbrev pub times_millisecond : ℤ → ℤ
  times_millisecond (pos n) = wrap_64 (pos (n * millisecond))
  times_millisecond (negsuc n) = wrap_64 (negsuc (n * millisecond + (millisecond - 1)))

  abbrev pub timeout_of : Option ℤ → Option ℤ
  timeout_of none = none
  timeout_of (some v) = if leb_ℤ (pos 1) v then some (times_millisecond v) else none

  abbrev pub timeout_from : Option Bytes → Option ℤ
  timeout_from none = none
  timeout_from (some s) = timeout_of (parse_int s)

  -- ExtractDeadlineBudget: the timeout that it puts on the context, if any.
  abbrev pub extract_deadline_budget : Ctx → Option ℤ
  extract_deadline_budget ctx = timeout_from (header t header_deadline_budget ctx)
