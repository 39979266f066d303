-- ===== src/Thriftbp/Middlewares.antt =====
-- The middlewares of thriftbp/server_middlewares.go and thriftbp/client_middlewares.go that watch how a call
-- ends. What a call does to the metrics is a state; the names of error types and of codes, and the error
-- that a panic is turned into, are arguments.
use baseplate_go.Common.{
  ℕ, ◌+◌, Bool, true, false, List, [], ◌∷◌, Bytes, Option, none, some, if◌then◌else◌,
}
use baseplate_go.Common.Int.{ℤ, pos, ◌+ℤ◌, ◌-ℤ◌}
use baseplate_go.Std.Int64.{show}
use baseplate_go.Thriftbp.Errors.{Failure, get_client_error}

-- The labels of a request in the counter of requests.
pub record Labels : Type 0 where
  pub success : Bool
  pub exception : Bytes
  pub code : Bytes
  pub status : Bytes

pub record Metrics : Type 0 where
  pub active : ℤ
  pub requests : List Labels
  pub recovered : ℕ

-- How Process of a TProcessorFunction ends.
pub data Ended : Type 0 where
  done : Bool → Option Failure → Ended
  panicked : ℕ → Ended

abbrev pub Handler : Type 0
Handler = Metrics → Metrics × Ended

-- What the texts of the labels are: %T of an error, and ErrorCode.String, none for <UNSET>.
pub record Names : Type 0 where
  pub type_name : Failure → Bytes
  pub status_name : ℤ → Option Bytes

abbrev pub is_nil : Option Failure → Bool
is_nil none = true
is_nil (some e) = false

abbrev pub or_empty : Option Bytes → Bytes
or_empty none = []
or_empty (some b) = b

abbrev pub code_labels : Names → Option ℤ → Bytes × Bytes
code_labels names none = ([], [])
code_labels names (some c) = (show c, or_empty (names.status_name c))

abbrev pub labels_of : Names → Option Failure → Labels
labels_of names none = record { success = true; exception = []; code = []; status = [] }
labels_of names (some e) =
    let (code, status) = code_labels names e.code in
    record { success = false; exception = names.type_name e; code = code; status = status }

-- The error that a deferred function sees: none during a panic.
abbrev pub error_of : Ended → Option Failure
error_of (done fine e) = e
error_of (panicked v) = none

-- The deferred function of both Prometheus middlewares.
abbrev pub observe : Names → Option Failure → Metrics → Metrics
observe names e m = record m {
  active = m.active -ℤ pos 1;
  requests = labels_of names e ∷ m.requests;
}

abbrev pub start_request : Metrics → Metrics
start_request m = record m { active = m.active +ℤ pos 1 }

unfoldable pub prometheus_server_middleware : Names → Handler → Handler
prometheus_server_middleware names next m =
    let (m', ended) = next (start_request m) in (observe names (error_of ended) m', ended)

-- recoverPanik
abbrev pub recovered : (ℕ → Failure) → Metrics × Ended → Metrics × Ended
recovered wrap (m, done fine e) = (m, done fine e)
recovered wrap (m, panicked v) =
    (record m { recovered = m.recovered + 1 }, done false (some (wrap v)))

unfoldable pub recover_panik : (ℕ → Failure) → Handler → Handler
recover_panik wrap next m = recovered wrap (next m)

-- AbandonCanceledRequests: the second argument is ErrAbandonRequest.
abbrev pub abandon_if : Failure → Option Failure → Option Failure
abandon_if abandon none = none
abandon_if abandon (some e) = if e.is_canceled then some abandon else some e

abbrev pub abandoned : Failure → Ended → Ended
abandoned abandon (done fine e) = done fine (abandon_if abandon e)
abandoned abandon (panicked v) = panicked v

unfoldable pub abandon_canceled_requests : Failure → Handler → Handler
abandon_canceled_requests abandon next m = let (m', ended) = next m in (m', abandoned abandon ended)

-- thrift.WrapProcessor: the first middleware is the outermost.
abbrev pub wrap_processor : List (Handler → Handler) → Handler → Handler
wrap_processor [] h = h
wrap_processor (mw ∷ mws) h = mw (wrap_processor mws h)

-- How Call of a client ends: its error, with the exception in the result.
pub data CallEnded : Type 0 where
  call_done : Option Failure → Option Failure → CallEnded
  call_panicked : CallEnded

-- getClientError in the deferred function; the result of a call that panics may hold no exception.
abbrev pub call_error_of : CallEnded → Option Failure
call_error_of (call_done e extracted) = get_client_error extracted e
call_error_of call_panicked = none

unfoldable pub prometheus_client_middleware :
    Names → (Metrics → Metrics × CallEnded) → Metrics → Metrics × CallEnded
prometheus_client_middleware names next m =
    let (m', ended) = next (start_request m) in (observe names (call_error_of ended) m', ended)

-- BaseplateErrorWrapper, without the text that its wrapper adds.
abbrev pub baseplate_error_wrapper : CallEnded → CallEnded
baseplate_error_wrapper (call_done e extracted) = call_done (get_client_error extracted e) extracted
baseplate_error_wrapper call_panicked = call_panicked
