-- ===== src/Httpbp/Retries.antt =====
-- Which responses a client retries: ClientErrorFromResponse of httpbp/errors.go with the filters of
-- retrybp/filters.go.
use baseplate_go.Common.{ℕ, Bool, true, false, ◌&&◌, ◌||◌, not, [], ◌∷◌, Option, none, some}
use baseplate_go.Common.Int.{pos, ltb_ℤ}
use baseplate_go.Retrybp.Filters.{Facts, filters, context_error_filter, retryable_error_filter}
use baseplate_go.Httpbp.Errors.{
  ClientError, retryable, is_success_status_code, RetryAfter, after_of, is_retryable_code,
}

-- What errors.As and errors.Is find in a ClientError: that it is a RetryableError, and nothing else.
abbrev pub facts_of : ClientError → Facts
facts_of ce = record {
  is_deadline_exceeded = false;
  is_canceled = false;
  as_net_error = false;
  retryable = some (retryable ce);
  thrift_retryable = none;
  is_recoverable = true;
  is_open_state = false;
  is_too_many_requests = false;
}

abbrev pub decide : Option ClientError → Bool
decide none = false
decide (some ce) = filters (context_error_filter ∷ retryable_error_filter ∷ []) (facts_of ce)

-- The codes that are worth another try.
abbrev pub says_retry : ℕ → RetryAfter → Bool
says_retry code after =
    not (is_success_status_code code) && (ltb_ℤ (pos 0) (after_of after) || is_retryable_code code)
