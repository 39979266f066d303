-- ===== src/Retrybp/Filters.antt =====
-- retrybp/filters.go: the filters that decide whether to retry.
-- An error is what errors.Is and errors.As tell of it, in `Facts`.
use baseplate_go.Common.{
  Bool, true, false, not, ◌&&◌, ◌||◌, List, [], ◌∷◌, Option, none, some, if◌then◌else◌,
}
use baseplate_go.Common.Int.{ℤ, pos, negsuc, ltb_ℤ}

-- `retryable` is the result of the RetryableError found, if one is found; `thrift_retryable` is the
-- optional field of the Thrift exception found.
pub record Facts : Type 0 where
  pub is_deadline_exceeded : Bool
  pub is_canceled : Bool
  pub as_net_error : Bool
  pub retryable : Option ℤ
  pub thrift_retryable : Option (Option Bool)
  pub is_recoverable : Bool
  pub is_open_state : Bool
  pub is_too_many_requests : Bool

abbrev pub RetryIf : Type 0
RetryIf = Facts → Bool

abbrev pub Filter : Type 0
Filter = Facts → RetryIf → Bool

abbrev pub default_filter_decision : Bool
default_filter_decision = false

abbrev pub fallback : RetryIf
fallback err = default_filter_decision

abbrev pub chain : Filter → RetryIf → RetryIf
chain current next = λ err. current err next

-- The function of Filters: the loop chains from the last filter to the first.
unfoldable pub filters : List Filter → RetryIf
filters [] = fallback
filters (f ∷ fs) = chain f (filters fs)

abbrev pub context_error_filter : Filter
context_error_filter err next =
    if err.is_deadline_exceeded || err.is_canceled then false else next err

abbrev pub network_error_filter : Filter
network_error_filter err next =
    if not err.is_deadline_exceeded && err.as_net_error then true else next err

-- 0 is no decision.
abbrev pub by_number : ℤ → Bool → Bool
by_number v next = if ltb_ℤ (pos 0) v then true else if ltb_ℤ v (pos 0) then false else next

abbrev pub retryable_error_filter : Filter
retryable_error_filter err next = elim err.retryable [
  | some v ↦ by_number v (next err)
  | none ↦ elim err.thrift_retryable [
    | some set ↦ elim set [ some b ↦ b | none ↦ next err ]
    | none ↦ if err.is_recoverable then next err else false
  ]
]

abbrev pub breaker_error_filter : Filter
breaker_error_filter err next =
    if err.is_open_state || err.is_too_many_requests then true else next err

-- Unrecoverable, of an error that is not nil: errors.As finds the wrapper first, and goes on to the error
-- in it for the rest.
abbrev pub unrecoverable : Facts → Facts
unrecoverable err = record err { retryable = some (negsuc 0) }
