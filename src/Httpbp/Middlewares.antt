-- ===== src/Httpbp/Middlewares.antt =====
-- httpbp/middlewares.go: how a request is wrapped, refused, counted and recovered.
-- A handler is a function of the request's method to what it writes on its ResponseWriter, in order, and how it
-- ends. A status code is a number that is not negative.
pub mod Methods
use baseplate_go.Common.{
  ℕ, ◌+◌, ◌-◌, ◌/◌, ◌≡◌, Bool, true, false, not, ◌&&◌, ◌||◌, List, [], ◌∷◌, ◌++◌, map, Bytes, codes,
  bytes_eq, Option, none, some, String, ltb, leb, ◌==◌, if◌then◌else◌,
}
use baseplate_go.Common.Int.{ℤ}
use baseplate_go.Httpbp.Headers.{join}
use baseplate_go.Httpbp.Errors.{
  ErrorResponse, is_success_status_code, method_not_allowed, internal_server_error,
}

-- What errors.As finds in an error: the code of an HTTPError; `cause` tells errors apart.
pub record Failure : Type 0 where
  pub http_code : Option ℕ
  pub cause : ℕ

-- WriteHeader; Write, by the bytes that went out; and a header that is set.
pub data Write : Type 0 where
  header : ℕ → Write
  body : ℕ → Write
  set_header : Bytes → Bytes → Write

pub data Ended : Type 0 where
  done : Option Failure → Ended
  panicked : ℕ → Ended

abbrev pub Handler : Type 0
Handler = Bytes → List Write × Ended

abbrev pub Middleware : Type 0
Middleware = Bytes → Handler → Handler

-- Wrap: the first middleware is the outermost.
unfoldable pub wrap : Bytes → Handler → List Middleware → Handler
wrap name handle [] = handle
wrap name handle (mw ∷ middlewares) = mw name (wrap name handle middlewares)

-- RawError, of an ErrorResponse.
abbrev pub raw_error : ErrorResponse → ℕ → Failure
raw_error resp cause = record { http_code = some resp.code; cause = cause }

-- httpErrorSuppressor
abbrev pub is_client_code : Option ℕ → Bool
is_client_code none = false
is_client_code (some code) = ltb code 500

abbrev pub http_error_suppressor : Failure → Bool
http_error_suppressor err = is_client_code err.http_code

-- strings.ToUpper, of ASCII.
abbrev pub upper_letter : ℕ → ℕ
upper_letter c = if leb b'a' c && leb c b'z' then c - 32 else c

abbrev pub to_upper : Bytes → Bytes
to_upper s = map upper_letter s

abbrev pub method_get : Bytes
method_get = codes "GET"

abbrev pub method_head : Bytes
method_head = codes "HEAD"

unfoldable pub has_method : List Bytes → Bytes → Bool
has_method [] m = false
has_method (s ∷ supported) m = bytes_eq s m || has_method supported m

abbrev pub add_method : Bytes → List Bytes → List Bytes
add_method m supported = if has_method supported m then supported else supported ++ m ∷ []

abbrev pub add_methods : List Bytes → List Bytes → List Bytes
add_methods [] supported = supported
add_methods (m ∷ ms) supported = add_methods ms (add_method (to_upper m) supported)

-- The map `supported`, by its keys.
unfoldable pub supported_of : Bytes → List Bytes → List Bytes
unfolding has_method
supported_of method additional =
    let supported = add_methods (method ∷ additional) [] in
    if has_method supported method_get then add_method method_head supported else supported

-- sort.Strings, and strings.Join with a comma.
unfoldable pub less : Bytes → Bytes → Bool
less [] [] = false
less [] (y ∷ ys) = true
less (x ∷ xs) [] = false
less (x ∷ xs) (y ∷ ys) = ltb x y || (x == y && less xs ys)

unfoldable pub insert_sorted : Bytes → List Bytes → List Bytes
insert_sorted s [] = s ∷ []
insert_sorted s (t ∷ ts) =
    let rest = insert_sorted s ts in if less t s then t ∷ rest else s ∷ t ∷ ts

unfoldable pub sort : List Bytes → List Bytes
sort [] = []
sort (s ∷ ss) = insert_sorted s (sort ss)

-- The error of a method that is not supported has this cause.
abbrev pub not_supported : ℕ
not_supported = 0

unfoldable pub supported_methods : Bytes → List Bytes → Middleware
unfolding supported_of join sort insert_sorted less has_method
supported_methods method additional name next m =
    if has_method (supported_of method additional) m then next m else (
      set_header (codes "Allow") (join b',' (sort (supported_of method additional))) ∷ [],
      done (some (raw_error method_not_allowed not_supported)),
    )

-- recoverPanik; the panic's value is the cause.
abbrev pub recovered : List Write × Ended → List Write × Ended
recovered (ws, done e) = (ws, done e)
recovered (ws, panicked v) = (ws, done (some (raw_error internal_server_error v)))

unfoldable pub recover_panik : Middleware
recover_panik name next m = recovered (next m)

-- statusCodeRecorder keeps the first code that is not 0, responseRecorder the last.
unfoldable pub first_code : ℕ → List Write → ℕ
first_code code [] = code
first_code code (header c ∷ ws) = first_code (if code == 0 then c else code) ws
first_code code (body n ∷ ws) = first_code code ws
first_code code (set_header k v ∷ ws) = first_code code ws

pub record ResponseRecorder : Type 0 where
  pub bytes_written : ℕ
  pub response_code : ℕ

unfoldable pub recorded : ResponseRecorder → List Write → ResponseRecorder
recorded rr [] = rr
recorded rr (header c ∷ ws) = recorded (record rr { response_code = c }) ws
recorded rr (body n ∷ ws) = recorded (record rr { bytes_written = rr.bytes_written + n }) ws
recorded rr (set_header k v ∷ ws) = recorded rr ws

abbrev pub code_of : Option ℕ → ℕ
code_of (some code) = code
code_of none = 500

abbrev pub code_of_error : Option Failure → ℕ
code_of_error none = 200
code_of_error (some err) = code_of err.http_code

unfoldable pub error_code_for_metrics : ℕ → Option Failure → ℕ
error_code_for_metrics explicit_code request_error =
    if explicit_code == 0 then code_of_error request_error else explicit_code

abbrev pub status_code_family : ℕ → String
status_code_family code =
    let family = code / 100 in
    if family == 1
    then "1xx"
    else if family == 2
    then "2xx"
    else if family == 3
    then "3xx"
    else if family == 4
    then "4xx"
    else if family == 5
    then "5xx"
    else "nan"

abbrev pub is_nil : Option Failure → Bool
is_nil none = true
is_nil (some e) = false

abbrev pub is_request_successful : ℕ → Option Failure → Bool
is_request_successful code err = is_nil err && is_success_status_code code

-- What the deferred functions see for the error: none during a panic.
abbrev pub error_of : Ended → Option Failure
error_of (done e) = e
error_of (panicked v) = none

-- The labels and the size that PrometheusServerMetrics observes.
pub record Observed : Type 0 where
  pub method : Bytes
  pub success : Bool
  pub code : ℕ
  pub response_size : ℕ

abbrev pub observe : Bytes → List Write × Ended → Observed
observe m (ws, ended) =
    let rec = recorded (record { bytes_written = 0; response_code = 0 }) ws in
    let code = error_code_for_metrics rec.response_code (error_of ended) in
    record {
      method = m;
      success = is_request_successful code (error_of ended);
      code = code;
      response_size = rec.bytes_written;
    }

-- PrometheusServerMetrics around a handler: what the handler did, and what is observed.
unfoldable pub prometheus_server_metrics : Handler → Bytes → (List Write × Ended) × Observed
unfolding recorded error_code_for_metrics
prometheus_server_metrics next m = (next m, observe m (next m))

-- recordStatusCode
unfoldable pub record_status_code : Handler → Bytes → (List Write × Ended) × String
unfolding first_code error_code_for_metrics
record_status_code next m =
    let (ws, ended) = next m in
    ((ws, ended), status_code_family (error_code_for_metrics (first_code 0 ws) (error_of ended)))
