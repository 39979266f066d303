-- ===== src/Retrybp/Decisions.antt =====
-- What a chain of the filters of retrybp/filters.go decides.
use baseplate_go.Common.{
  ◌≡◌, refl, ap, ◌∙◌, Bool, true, false, List, [], ◌∷◌, Option, none, some, if◌then◌else◌, arith,
  map,
}
use baseplate_go.Common.Int.{ℤ, pos, negsuc, ltb_ℤ}
use baseplate_go.Retrybp.Filters.{
  Facts, Filter, filters, context_error_filter, network_error_filter, retryable_error_filter,
  breaker_error_filter, unrecoverable,
}

-- The filters of the package.
pub data Known : Type 0 where
  context network retryable breaker : Known

abbrev pub filter_of : Known → Filter
filter_of context = context_error_filter
filter_of network = network_error_filter
filter_of retryable = retryable_error_filter
filter_of breaker = breaker_error_filter

abbrev of_number : ℤ → Option Bool
of_number (pos n) = if ltb_ℤ (pos 0) (pos n) then some true else none
of_number (negsuc n) = some false

-- What each filter says of an error by itself, none if it leaves the decision to the next.
abbrev pub decision : Known → Facts → Option Bool
decision context err =
    if err.is_deadline_exceeded then some false else if err.is_canceled then some false else none
decision network err =
    if err.is_deadline_exceeded then none else if err.as_net_error then some true else none
decision retryable err = elim err.retryable [
  | some v ↦ of_number v
  | none ↦ elim err.thrift_retryable [
    | some set ↦ set
    | none ↦ if err.is_recoverable then none else some false
  ]
]
decision breaker err =
    if err.is_open_state then some true else if err.is_too_many_requests then some true else none

-- The first decision, and not to retry if there is none.
abbrev pub first_decision : List Known → Facts → Bool
first_decision [] err = false
first_decision (k ∷ ks) err = elim (decision k err) [ some b ↦ b | none ↦ first_decision ks err ]

filter_of-decision :
    (k : Known) (err : Facts) (next : Facts → Bool)
    → filter_of k err next ≡ elim (decision k err) [ some b ↦ b | none ↦ next err ]
filter_of-decision context err next = ground arith
filter_of-decision network err next = ground arith
filter_of-decision retryable err next = ground arith
filter_of-decision breaker err next = ground arith

-- A chain of filters returns the decision of the first filter that has one, in the order in which they
-- are given to Filters, and does not retry if none has one.
pub filters-first_decision :
    (ks : List Known) (err : Facts) → filters (map filter_of ks) err ≡ first_decision ks err
unfolding filters
filters-first_decision [] err = refl
filters-first_decision (k ∷ ks) err =
    filter_of-decision k err (filters (map filter_of ks))
    ∙ ap (λ b. elim (decision k err) [ some d ↦ d | none ↦ b ]) (filters-first_decision ks err)

-- An Unrecoverable error is not retried if RetryableErrorFilter comes first, whatever the error in it is
-- and the other filters say.
pub unrecoverable_never :
    (fs : List Filter) (err : Facts)
    → filters (retryable_error_filter ∷ fs) (unrecoverable err) ≡ false
unfolding filters
unrecoverable_never fs err = refl
