-- ===== src/Thriftbp/Tests.antt =====
-- Tests of thriftbp.
use baseplate_go.Common.{
  ℕ, ◌+◌, ◌^◌, ◌≤◌, ◌<◌, ◌≡◌, refl, true, false, List, [], ◌∷◌, Bytes, codes, bytes_eq, Option,
  none, some, count, arith, if◌then◌else◌,
}
use baseplate_go.Common.Int.{pos, negsuc, ◌+ℤ◌}
use baseplate_go.Std.Float64.{of_int, mul, to_int, rounded}
use baseplate_go.Std.Instant.{second}
use baseplate_go.Std.Int64.{wrap_64}
use baseplate_go.Std.Decimal.{parse_int}
use baseplate_go.Randbp.{jitter_duration, jitter_ratio, float_0}
use baseplate_go.ClientPool.{ChannelPool, Env, ok, get, release}
use baseplate_go.Thriftbp.Ttl.{
  TtlClient, new_ttl_client, renew, fresh, is_open, handle, Event, closes, fires, puts_in, Runs,
  here, next,
}
use baseplate_go.Thriftbp.Ttl.Kept.{transports_closed}
use baseplate_go.Thriftbp.Headers.{Thrift, IsThrift}
use baseplate_go.Thriftbp.Budget.{
  millisecond, budget_of, with_budget, extract_deadline_budget, timeout_from,
}
use baseplate_go.Thriftbp.Deadlines.{budget-Arrives}
use baseplate_go.Thriftbp.Errors.{
  Failure, compiled, idl_exception_suppressor, baseplate_error_filter, with_default_retryable_codes,
}
use baseplate_go.Thriftbp.Pool.{
  ThriftPool, returns, get_client, pooled_call, validate_baseplate, invalid_connections,
  missing_addr, release_client,
}
use baseplate_go.Thriftbp.Pool.Calls.{pooled_call-active}
use baseplate_go.Thriftbp.Middlewares.{
  Metrics, done, panicked, Handler, Names, labels_of, start_request,
}
use baseplate_go.Thriftbp.Served.{serve, serve_lem, answer}

-- A client of one second, made at 10 with a refresh under way when it is closed.
abbrev client : TtlClient
client = renew 10 (fresh (pos second))

client_made : new_ttl_client true 10 float_0 (pos second) float_0 ≡ some client
unfolding jitter_duration jitter_ratio mul of_int to_int rounded
client_made = refl

abbrev due : ℕ
due = second + 10

abbrev history : List Event
history = puts_in due 1 ∷ closes ∷ fires due true ∷ []

abbrev ended : TtlClient
ended = handle (puts_in due 1) (handle closes (handle (fires due true) client))

history-Runs : Runs client history ended
history-Runs =
    next (puts_in due 1) (next closes (next (fires due true) here (omega arith) refl) tt refl)
      (omega arith) refl

transports_closed_example :
    (ended.client ≡ ended.transport) × (ended.timer ≡ none) × (1 ≤ count 1 ended.shut)
transports_closed_example =
    transports_closed true 10 float_0 (pos second) float_0 1 client_made history-Runs refl refl
      (omega arith)

expired : is_open (due + 1) true client ≡ (record client { shut = 0 ∷ [] }, false)
expired = refl

-- Contexts that are their headers and the write list.
abbrev Ctx : Type 0
Ctx = (Bytes → Option Bytes) × List Bytes

abbrev thrift : Thrift Ctx
thrift = record {
  set_header = λ key value ctx. ((λ k. if bytes_eq key k then some value else ctx.0 k), ctx.1);
  unset_header = λ key ctx. ((λ k. if bytes_eq key k then none else ctx.0 k), ctx.1);
  get_header = λ key ctx. ctx.0 key;
  set_write_list = λ keys ctx. (ctx.0, keys);
  write_list = λ ctx. ctx.1;
}

thrift-IsThrift : IsThrift thrift
thrift-IsThrift = record {
  get-set = λ key other value ctx. refl;
  get-set_write_list = λ key keys ctx. refl;
  write_list-set = λ keys ctx. refl;
  write_list-set_header = λ key value ctx. refl;
}

abbrev no_headers : Ctx
no_headers = ((λ k. none), [])

abbrev sent : Ctx
sent = with_budget thrift 100 (some 2_500_100) no_headers

budget-Arrives_example :
    (timeout : ℕ) × (extract_deadline_budget thrift sent ≡ some (pos timeout))
    × (2_500_100 ≤ 100 + timeout)
    × (100 + timeout < 2_500_100 + millisecond)
budget-Arrives_example =
    budget-Arrives thrift thrift-IsThrift 100 2_500_100 no_headers sent (omega arith) (omega arith)
      (λ key m. refl)

-- 2.5 milliseconds are sent as 3.
three : budget_of 100 2_500_100 ≡ pos 3
unfolding budget_of wrap_64 ◌+ℤ◌
three = refl

-- A deadline that is too far away for a Duration is sent as one millisecond.
too_far : budget_of 0 (2 ^ 63) ≡ pos 1
unfolding budget_of wrap_64 ◌+ℤ◌
too_far = refl

-- So many milliseconds are no Duration: the timeout is negative.
too_long :
    timeout_from thrift (some (codes "9223372036855")) ≡ some (negsuc 9_223_372_036_854_551_615)
unfolding parse_int wrap_64
too_long = refl

abbrev env : Env
env = record { is_open = λ c. true; opener = ok 7; close_err = λ c. none }

abbrev channel : ChannelPool
channel = record { pool = 5 ∷ []; shut = false; num_active = 0; max_clients = 2; closed = [] }

abbrev pool : ThriftPool
pool = record {
  channel = channel;
  gets_succeeded = 0;
  gets_failed = 0;
  times_exhausted = 0;
  connections_closed = 0;
  release_errors = 0;
}

abbrev idl_exception : Failure
idl_exception = record {
  exception = some compiled;
  code = some (pos 404);
  is_exhausted = false;
  is_canceled = false;
  named = 3;
}

abbrev broken_pipe : Failure
broken_pipe = record {
  exception = none;
  code = none;
  is_exhausted = false;
  is_canceled = false;
  named = 4;
}

pooled_call-active_example :
    (pooled_call pool env (returns (some broken_pipe)) env).0.channel.num_active ≡ 0
unfolding get_client get
pooled_call-active_example =
    pooled_call-active pool env (returns (some broken_pipe)) env (omega arith) tt

abbrev lent : ThriftPool
lent = record pool { channel = record channel { pool = []; num_active = 1 }; gets_succeeded = 1 }

broken_closed :
    (pooled_call pool env
      (returns (some broken_pipe))
      (record env { is_open = λ c. false })).0.channel
    ≡ record channel { pool = 7 ∷ []; closed = 5 ∷ 5 ∷ [] }
unfolding pooled_call get_client release_client get release
broken_closed = refl

suppressed : idl_exception_suppressor idl_exception ≡ true
suppressed = refl

not_retried :
    baseplate_error_filter (with_default_retryable_codes []) idl_exception (λ e. true) ≡ false
not_retried = refl

too_many_connections :
    validate_baseplate (record {
      service_slug = codes "s";
      addr = [];
      initial_connections = pos 3;
      max_connections = pos 2;
    })
    ≡ missing_addr ∷ invalid_connections ∷ []
too_many_connections = refl

abbrev names : Names
names = record { type_name = λ e. codes "E"; status_name = λ c. some (codes "NOT_FOUND") }

abbrev quiet : Metrics
quiet = record { active = pos 2; requests = []; recovered = 0 }

abbrev wrap : ℕ → Failure
wrap n = record broken_pipe { named = n }

abbrev panicking : Handler
panicking m = (m, panicked 9)

serve_lem_example :
    (m' : Metrics) × (serve names wrap broken_pipe panicking quiet ≡ (
      m',
      done
          (answer wrap broken_pipe (panicking (start_request quiet)).1).0
          (answer wrap broken_pipe (panicking (start_request quiet)).1).1,
    ))
    × (m'.active ≡ pos 2)
    × (m'.requests ≡ labels_of names (some (wrap 9)) ∷ [])
serve_lem_example = serve_lem names wrap broken_pipe panicking quiet refl
