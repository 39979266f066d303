-- ===== src/ClientPool.antt =====
-- clientpool/channel.go, clientpool/errors.go and clientpool/interface.go: the channel pool.
-- A client is its number. What the code asks of a client and of the opener during one call is the
-- call's `Env`. The buffered channel is a list, oldest first. `closed` logs the calls of Close on
-- clients, latest first. `num_active` is the bit pattern of the int32.
pub mod New
pub mod Initial
pub mod Sizes
pub mod Returns
pub mod Bounds
pub mod History
pub mod Counter
pub mod Accounts
pub mod Balance
pub mod Race
mod Tests
use baseplate_go.Common.{
  ℕ, zero, suc, ◌+◌, ◌-◌, ◌%◌, ◌^◌, ◌≤◌, ◌<◌, ◌≡◌, Bool, true, false, not, List, [], ◌∷◌, ◌++◌,
  Option, none, some, ltb, leb, length, if◌then◌else◌,
}

-- The errors of the package; `failed e` is an error of the opener, of Close or of the context.
pub data Error : Type 0 where
  exhausted get_after_close config_error : Error
  failed : ℕ → Error

-- `ErrExhausted.Retryable()`; the other errors are no RetryableError of this package.
pub retryable : Error → Option ℕ
retryable exhausted = some 1
retryable _ = none

pub data Outcome {ℓ} (A : Type ℓ) : Type ℓ where
  ok : A → Outcome A
  err : Error → Outcome A
  panic : Outcome A

pub record Env : Type 0 where
  pub is_open : ℕ → Bool
  pub opener : Outcome ℕ
  pub close_err : ℕ → Option Error

pub record ChannelPool : Type 0 where
  pub pool : List ℕ
  pub shut : Bool
  pub num_active : ℕ
  pub max_clients : ℕ
  pub closed : List ℕ

abbrev pub i32 : ℕ → ℕ
i32 n = n % 2 ^ 32

-- a >= b for two int32 bit patterns.
abbrev pub sge32 : ℕ → ℕ → Bool
sge32 a b = leb ((b + 2 ^ 31) % 2 ^ 32) ((a + 2 ^ 31) % 2 ^ 32)

-- `numActive.Add(1)` and `numActive.Add(-1)`.
abbrev pub activate : ChannelPool → ChannelPool
activate p = record p { num_active = i32 (p.num_active + 1) }

abbrev pub deactivate : ChannelPool → ChannelPool
deactivate p = record p { num_active = i32 (p.num_active + (2 ^ 32 - 1)) }

abbrev pub close_client : ChannelPool → ℕ → ChannelPool
close_client p c = record p { closed = c ∷ p.closed }

pub num_active_clients : ChannelPool → ℕ
num_active_clients p = p.num_active

pub num_allocated : ChannelPool → ℕ
num_allocated p = i32 (length p.pool)

unfoldable pub is_exhausted : ChannelPool → Bool
unfolding num_active_clients
is_exhausted p = sge32 (num_active_clients p) (i32 p.max_clients)

-- The deferred function of Get around the call of the opener: it sees no error when the opener panics,
-- and counts a client that nobody holds.
abbrev pub lend : ChannelPool → Outcome ℕ → ChannelPool × Outcome ℕ
lend p (ok c) = (activate p, ok c)
lend p (err e) = (p, err e)
lend p panic = (activate p, panic)

abbrev pub open_new : ChannelPool → Env → ChannelPool × Outcome ℕ
open_new p env = if is_exhausted p then (p, err exhausted) else lend p env.opener

unfoldable pub get : ChannelPool → Env → ChannelPool × Outcome ℕ
get p env = elim p.pool [
  | [] ↦ if p.shut then (p, err get_after_close) else open_new p env
  | c ∷ rest ↦
      let q = record p { pool = rest } in
      if env.is_open c then lend q (ok c) else open_new (close_client q c) env
]

abbrev pub result_of : Option Error → Outcome (Unit {0})
result_of none = ok tt
result_of (some e) = err e

-- The last `select` of Release; a send on a closed channel panics.
abbrev pub put_back : ChannelPool → ℕ → Env → ChannelPool × Outcome (Unit {0})
put_back p c env =
    if p.shut
    then (p, panic)
    else if ltb (length p.pool) p.max_clients
    then (record p { pool = p.pool ++ c ∷ [] }, ok tt)
    else (close_client p c, result_of (env.close_err c))

abbrev pub replace : ChannelPool → Env → Outcome ℕ → ChannelPool × Outcome (Unit {0})
replace p env (ok c) = put_back p c env
replace p env (err e) = (p, err e)
replace p env panic = (p, panic)

-- The deferred `numActive.Add(-1)` runs on every path, a panic included.
unfoldable pub release : ChannelPool → Option ℕ → Env → ChannelPool × Outcome (Unit {0})
release p none env = (p, ok tt)
release p (some c) env =
    let p' = deactivate p in
    if env.is_open c then put_back p' c env else replace (close_client p' c) env env.opener

-- The loop of Close keeps the last error.
unfoldable pub close_all : Env → List ℕ → List ℕ → Option Error → List ℕ × Option Error
close_all env [] log last = (log, last)
close_all env (c ∷ cs) log last =
    close_all env cs (c ∷ log) (elim (env.close_err c) [ none ↦ last | some e ↦ some e ])

-- Closing a closed channel panics.
unfoldable pub close : ChannelPool → Env → ChannelPool × Outcome (Unit {0})
unfolding close_all
close p env =
    let (log, last) = close_all env p.pool p.closed none in
    if p.shut
    then (p, panic)
    else (record p { pool = []; shut = true; closed = log }, result_of last)
