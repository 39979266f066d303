-- ===== src/Thriftbp/Pool.antt =====
-- thriftbp/client_pool.go: a call on a client of the pool, over clientpool/channel.go.
-- The counters of the pool are fields. The environment of Get and that of Release are arguments, as in the
-- channel pool, and so is how the client's Call ends.
pub mod Calls
use baseplate_go.Common.{
  ℕ, ◌+◌, ◌≡◌, Bool, true, false, List, [], ◌∷◌, ◌++◌, Option, none, some, ltb, if◌then◌else◌,
  is_empty, Bytes,
}
use baseplate_go.Common.Int.{ℤ, ltb_ℤ}
use baseplate_go.ClientPool
use baseplate_go.ClientPool.{
  ChannelPool, Env, Outcome, ok, err, panic, get, release, close_client, exhausted,
}
use baseplate_go.Thriftbp.Errors.{Failure, should_close_connection}

-- The fields of ClientPoolConfig that are checked.
pub record ClientPoolConfig : Type 0 where
  pub service_slug : Bytes
  pub addr : Bytes
  pub initial_connections : ℤ
  pub max_connections : ℤ

pub data ConfigError : Type 0 where
  missing_service_slug missing_addr invalid_connections : ConfigError

abbrev pub complain : Bool → ConfigError → List ConfigError
complain b e = if b then e ∷ [] else []

-- ClientPoolConfig.Validate, and BaseplateClientPoolConfig.Validate with all errors that it joins.
abbrev pub validate : ClientPoolConfig → Option ConfigError
validate c =
    if ltb_ℤ c.max_connections c.initial_connections then some invalid_connections else none

abbrev pub validate_baseplate : ClientPoolConfig → List ConfigError
validate_baseplate c =
    complain (is_empty c.service_slug) missing_service_slug
    ++ (complain (is_empty c.addr) missing_addr
        ++ complain (ltb_ℤ c.max_connections c.initial_connections) invalid_connections)

pub record ThriftPool : Type 0 where
  pub channel : ChannelPool
  pub gets_succeeded : ℕ
  pub gets_failed : ℕ
  pub times_exhausted : ℕ
  pub connections_closed : ℕ
  pub release_errors : ℕ

-- How Call of the client ends.
pub data Called : Type 0 where
  returns : Option Failure → Called
  call_panics : Called

-- How pooledCall ends: PoolError, what Call returned, or a panic.
pub data CallResult : Type 0 where
  pool_error : ClientPool.Error → CallResult
  call_returned : Option Failure → CallResult
  panics : CallResult

abbrev pub is_exhausted_error : ClientPool.Error → Bool
is_exhausted_error exhausted = true
is_exhausted_error _ = false

-- getClient, after Get. The deferred function sees no error when Get panics.
abbrev pub count_get : ThriftPool → ChannelPool × Outcome ℕ → ThriftPool × Outcome ℕ
count_get p (q, ok c) = (record p { channel = q; gets_succeeded = p.gets_succeeded + 1 }, ok c)
count_get p (q, err e) =
    let more : ℕ = if is_exhausted_error e then 1 else 0 in
    (
      record p {
        channel = q;
        gets_failed = p.gets_failed + 1;
        times_exhausted = p.times_exhausted + more;
      },
      err e,
    )
count_get p (q, panic) = (record p { channel = q; gets_succeeded = p.gets_succeeded + 1 }, panic)

unfoldable pub get_client : ThriftPool → Env → ThriftPool × Outcome ℕ
get_client p env = count_get p (get p.channel env)

-- releaseClient, after Release: an error is logged and counted, a panic goes on.
abbrev pub count_release :
    ThriftPool → CallResult → ChannelPool × Outcome (Unit {0}) → ThriftPool × CallResult
count_release p r (q, ok u) = (record p { channel = q }, r)
count_release p r (q, err e) = (record p { channel = q; release_errors = p.release_errors + 1 }, r)
count_release p r (q, panic) = (record p { channel = q }, panics)

unfoldable pub release_client : ThriftPool → ℕ → Env → CallResult → ThriftPool × CallResult
release_client p c env r = count_release p r (release p.channel (some c) env)

-- What the deferred function of pooledCall has for the error: none when Call panics.
abbrev pub error_of : Called → Option Failure
error_of (returns e) = e
error_of call_panics = none

abbrev pub result_of : Called → CallResult
result_of (returns e) = call_returned e
result_of call_panics = panics

abbrev pub close_broken : ThriftPool → ℕ → Option Failure → ThriftPool
close_broken p c e =
    if should_close_connection e
    then record p {
      channel = close_client p.channel c;
      connections_closed = p.connections_closed + 1;
    }
    else p

abbrev pub call_with : ThriftPool × Outcome ℕ → Called → Env → ThriftPool × CallResult
call_with (p, ok c) called env =
    release_client (close_broken p c (error_of called)) c env (result_of called)
call_with (p, err e) called env = (p, pool_error e)
call_with (p, panic) called env = (p, panics)

unfoldable pub pooled_call : ThriftPool → Env → Called → Env → ThriftPool × CallResult
pooled_call p env called env' = call_with (get_client p env) called env'
