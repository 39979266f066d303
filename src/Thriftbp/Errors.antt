-- ===== src/Thriftbp/Errors.antt =====
-- thriftbp/errors.go: what the package tells from an error, with getClientError of
-- thriftbp/client_middlewares.go and shouldCloseConnection of thriftbp/client_pool.go.
-- An error is what errors.As and errors.Is find in it.
use baseplate_go.Common.{ℕ, Bool, true, false, not, ◌&&◌, ◌||◌, List, [], ◌∷◌, Option, none, some}
use baseplate_go.Common.Int.{ℤ, pos, ltb_ℤ, leb_ℤ}

-- thrift.TExceptionType
pub data Kind : Type 0 where
  unknown compiled application protocol transport : Kind

-- The type of the TException found; the code of the baseplate.Error found, 0 if it is unset; and whether the
-- error is ErrExhausted of the client pool, or context.Canceled. `named` tells errors apart.
pub record Failure : Type 0 where
  pub exception : Option Kind
  pub code : Option ℤ
  pub is_exhausted : Bool
  pub is_canceled : Bool
  pub named : ℕ

abbrev pub is_compiled : Kind → Bool
is_compiled compiled = true
is_compiled _ = false

-- WithDefaultRetryableCodes: TOO_EARLY, TOO_MANY_REQUESTS and SERVICE_UNAVAILABLE.
abbrev pub with_default_retryable_codes : List ℤ → List ℤ
with_default_retryable_codes codes = pos 425 ∷ pos 429 ∷ pos 503 ∷ codes

abbrev pub is_code : ℤ → ℤ → Bool
is_code a b = leb_ℤ a b && leb_ℤ b a

abbrev pub has_code : List ℤ → ℤ → Bool
has_code [] c = false
has_code (d ∷ codes) c = is_code d c || has_code codes c

-- BaseplateErrorFilter, of the codes and the next filter.
abbrev pub filter_code : List ℤ → Option ℤ → Bool → Bool
filter_code codes (some c) next = has_code codes c
filter_code codes none next = next

abbrev pub baseplate_error_filter : List ℤ → Failure → (Failure → Bool) → Bool
baseplate_error_filter codes err next = filter_code codes err.code (next err)

abbrev pub suppresses : Option Kind → Option ℤ → Bool
suppresses none code = false
suppresses (some kind) (some c) = ltb_ℤ c (pos 500) || leb_ℤ (pos 600) c
suppresses (some kind) none = is_compiled kind

-- IDLExceptionSuppressor
abbrev pub idl_exception_suppressor : Failure → Bool
idl_exception_suppressor err = suppresses err.exception err.code

-- getClientError: `extracted` is the exception in the result.
abbrev pub get_client_error : Option Failure → Option Failure → Option Failure
get_client_error extracted (some err) = some err
get_client_error extracted none = extracted

abbrev pub is_idl : Option Kind → Bool
is_idl (some kind) = is_compiled kind
is_idl none = false

abbrev pub should_close_connection : Option Failure → Bool
should_close_connection none = false
should_close_connection (some err) = not (is_idl err.exception)
