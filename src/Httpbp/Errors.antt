-- ===== src/Httpbp/Errors.antt =====
-- httpbp/errors.go: the errors that a handler returns, and those that a client makes of a response.
-- Of a template there is its name; how an error is written is Httpbp/Responses.
use baseplate_go.Common.{
  ℕ, Bool, true, false, ◌&&◌, ◌||◌, List, [], ◌∷◌, Bytes, Option, none, some, String, Map, insert,
  ltb, leb, str_eq, ◌==◌, if◌then◌else◌,
}
use baseplate_go.Common.Int.{ℤ, pos, ltb_ℤ}
use baseplate_go.Std.Float64.{Float64, of_int, mul, to_int}
use baseplate_go.Std.Instant.{second}

pub record ErrorResponse : Type 0 where
  pub reason : String
  pub explanation : String
  pub details : Map String
  pub code : ℕ
  pub raw : String
  pub template : String

abbrev pub default_error_template_name : String
default_error_template_name = "httpbp/error"

abbrev pub new_error_response : ℕ → String → String → ErrorResponse
new_error_response code reason explanation = record {
  reason = reason;
  explanation = explanation;
  details = [];
  code = code;
  raw = "";
  template = "";
}

abbrev pub with_all : Map String → Map String → Map String
with_all [] m = m
with_all ((k, v) ∷ details) m = with_all details (insert k v m)

abbrev pub with_details : Map String → ErrorResponse → ErrorResponse
with_details details r = record r { details = with_all details r.details }

abbrev pub with_raw_response : String → ErrorResponse → ErrorResponse
with_raw_response raw r = record r { raw = raw }

abbrev pub with_template_name : String → ErrorResponse → ErrorResponse
with_template_name name r = record r { template = name }

-- String
abbrev pub string_of : ErrorResponse → String
string_of r = if str_eq r.raw "" then r.reason else r.raw

abbrev pub template_name : ErrorResponse → String
template_name r = if str_eq r.template "" then default_error_template_name else r.template

abbrev pub bad_request : ErrorResponse
bad_request = new_error_response 400 "BAD_REQUEST" "The request sent was invalid."

abbrev pub unauthorized : ErrorResponse
unauthorized =
    new_error_response 401 "UNAUTHORIZED"
      "This server could not verify that you are authorized to access the document you requested."

abbrev pub payment_required : ErrorResponse
payment_required =
    new_error_response 402 "PAYMENT_REQUIRED"
      "This server cannot process the request until payment is made."

abbrev pub forbidden : ErrorResponse
forbidden = new_error_response 403 "FORBIDDEN" "You do not have access to the requested resource."

abbrev pub not_found : ErrorResponse
not_found = new_error_response 404 "NOT_FOUND" "The requested resource could not be found."

abbrev pub method_not_allowed : ErrorResponse
method_not_allowed = new_error_response 405 "NOT_FOUND" "The requested resource could not be found."

abbrev pub conflict : ErrorResponse
conflict =
    new_error_response 409 "CONFLICT"
      "This request has a conflict with the current state of the system."

abbrev pub gone : ErrorResponse
gone = new_error_response 410 "GONE" "The requested resource is no longer available."

abbrev pub payload_too_large : ErrorResponse
payload_too_large = new_error_response 413 "PAYLOAD_TOO_LARGE" "The request was too large."

abbrev pub unsupported_media_type : ErrorResponse
unsupported_media_type =
    new_error_response 415 "UNSUPPORTED_MEDIA_TYPE" "The given media type is not supported."

-- The cup stands here without the variation selector that follows it in the source.
abbrev pub teapot : ErrorResponse
teapot = new_error_response 418 "TEAPOT" "I am a teapot. ☕"

abbrev pub unprocessable_entity : ErrorResponse
unprocessable_entity =
    new_error_response 422 "UNPROCESSABLE_ENTITY" "The request could not be processed."

abbrev pub too_early : ErrorResponse
too_early =
    new_error_response 425 "TOO_EARLY"
      "The server refused to process the request as it might be a replay."

abbrev pub too_many_requests : ErrorResponse
too_many_requests =
    new_error_response 429 "TOO_MANY_REQUESTS"
      "The client has sent too many requests to the server."

abbrev pub legal_block : ErrorResponse
legal_block =
    new_error_response 451 "UNAVAILABLE_FOR_LEGAL_REASONS"
      "The requested resource is unavailable for legal reason."

abbrev pub internal_server_error : ErrorResponse
internal_server_error =
    new_error_response 500 "INTERNAL_SERVER_ERROR"
      "The server has either erred or is incapable of performing the request."

abbrev pub not_implemented : ErrorResponse
not_implemented =
    new_error_response 501 "NOT_IMPLEMENTED"
      "The server does not support the requirements for the request."

abbrev pub bad_gateway : ErrorResponse
bad_gateway =
    new_error_response 502 "BAD_GATEWAY"
      "The server received an invalid response from an upstream server."

abbrev pub service_unavailable : ErrorResponse
service_unavailable =
    new_error_response 503 "SERVICE_UNAVAILABLE"
      "The server is currently unavailable.\nPlease try again at a later time."

abbrev pub gateway_timeout : ErrorResponse
gateway_timeout =
    new_error_response 504 "GATEWAY_TIMEOUT"
      "The server timed out waiting for a response from an upstream service."

-- errorFuncsByCode
abbrev pub error_funcs_by_code : List (ℕ × ErrorResponse)
error_funcs_by_code =
    (400, bad_request)
    ∷ (401, unauthorized)
    ∷ (402, payment_required)
    ∷ (403, forbidden)
    ∷ (404, not_found)
    ∷ (405, method_not_allowed)
    ∷ (409, conflict)
    ∷ (410, gone)
    ∷ (413, payload_too_large)
    ∷ (415, unsupported_media_type)
    ∷ (418, teapot)
    ∷ (422, unprocessable_entity)
    ∷ (425, too_early)
    ∷ (429, too_many_requests)
    ∷ (451, legal_block)
    ∷ (500, internal_server_error)
    ∷ (501, not_implemented)
    ∷ (502, bad_gateway)
    ∷ (503, service_unavailable)
    ∷ (504, gateway_timeout)
    ∷ []

abbrev pub find_code : ℕ → List (ℕ × ErrorResponse) → ErrorResponse
find_code code [] = internal_server_error
find_code code ((c, r) ∷ table) = if c == code then r else find_code code table

unfoldable pub error_for_code : ℕ → ErrorResponse
error_for_code code = find_code code error_funcs_by_code

-- An HTTPError: its code and body, and its cause, by a number.
pub record HttpError : Type 0 where
  pub code : ℕ
  pub body : ErrorResponse
  pub json : Bool
  pub cause : ℕ

-- JSONError; HTMLError and RawError
abbrev pub json_error : ErrorResponse → ℕ → HttpError
json_error resp cause = record { code = resp.code; body = resp; json = true; cause = cause }

abbrev pub raw_error : ErrorResponse → ℕ → HttpError
raw_error resp cause = record { code = resp.code; body = resp; json = false; cause = cause }

-- ClientError; the code 0 stands for no response.
pub record ClientError : Type 0 where
  pub status_code : ℕ
  pub retry_after : ℤ
  pub additional_info : Bytes

abbrev pub is_retryable_code : ℕ → Bool
is_retryable_code code = code == 425 || (code == 429 || code == 503)

abbrev pub retryable_code : ℕ → ℤ
retryable_code code = if is_retryable_code code then pos 1 else pos 0

-- Retryable
unfoldable pub retryable : ClientError → ℤ
retryable ce =
    if ce.status_code == 0
    then pos 0
    else if ltb_ℤ (pos 0) ce.retry_after
    then pos 1
    else retryable_code ce.status_code

abbrev pub is_success_status_code : ℕ → Bool
is_success_status_code code = leb 100 code && ltb code 400

-- The Retry-After header, without the blanks around it: empty, a date that http.ParseTime reads, a number that
-- ParseFloat reads, or another text.
pub data RetryAfter : Type 0 where
  no_header unreadable : RetryAfter
  at_time : ℤ → RetryAfter
  seconds_after : Float64 → RetryAfter

-- The first argument of at_time is what time.Until gives.
abbrev pub after_of : RetryAfter → ℤ
after_of no_header = pos 0
after_of unreadable = pos 0
after_of (at_time left) = left
after_of (seconds_after s) = to_int (mul s (of_int (pos second)))

unfoldable pub client_error_from_response : ℕ → RetryAfter → Option ClientError
client_error_from_response code after =
    if is_success_status_code code
    then none
    else some (record { status_code = code; retry_after = after_of after; additional_info = [] })
