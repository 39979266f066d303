-- ===== src/Thriftbp/Ttl.antt =====
-- thriftbp/ttl_client.go: a client whose transport is replaced before its age limit.
-- Transports are numbered in the order in which the generator makes them, from 0, and a Thrift client has the
-- number of its transport. The lock makes each method one step; refresh is two steps, the call of the
-- generator and what it does under the lock. Instants are numbers, in nanoseconds.
pub mod Kept
use baseplate_go.Common.{
  ℕ, suc, ◌+◌, ◌*◌, ◌≤◌, ◌<◌, ◌≡◌, Bool, true, false, not, List, [], ◌∷◌, Option, none, some, count,
  ◌==◌, if◌then◌else◌,
}
use baseplate_go.Common.Int.{ℤ, pos, pos_part, ltb_ℤ}
use baseplate_go.Std.Float64.{Float64}
use baseplate_go.Std.Instant.{Instant, second, is_zero, before}
use baseplate_go.Randbp.{jitter_duration}

abbrev pub default_max_connection_age : ℤ
default_max_connection_age = pos (5 * 60 * second)

-- The ttlClient with its state; `timer` is when a timer that is set goes off. Beside it what happened outside:
-- how many transports were made, those that a refresh holds and has not yet put in, the calls of Close on
-- transports (latest first), and the bytes that the current transport has counted.
pub record TtlClient : Type 0 where
  pub ttl : ℤ
  pub client : ℕ
  pub transport : ℕ
  pub expiration : Instant
  pub timer : Option Instant
  pub closed : Bool
  pub made : ℕ
  pub refreshed : List ℕ
  pub shut : List ℕ
  pub bytes_read : ℕ
  pub bytes_written : ℕ

abbrev pub is_negative : ℤ → Bool
is_negative z = ltb_ℤ z (pos 0)

abbrev pub renew : Instant → TtlClient → TtlClient
renew now c =
    if is_negative c.ttl
    then c
    else record c { expiration = now + pos_part c.ttl; timer = some (now + pos_part c.ttl) }

abbrev pub close : TtlClient → TtlClient
close c = record c { closed = true; timer = none; shut = c.transport ∷ c.shut }

-- The counting transport: Read and Write add what they moved, also where they fail.
abbrev pub counted : ℕ → ℕ → TtlClient → TtlClient
counted read written c = record c {
  bytes_read = c.bytes_read + read;
  bytes_written = c.bytes_written + written;
}

abbrev pub get_bytes_and_reset : TtlClient → TtlClient × (ℕ × ℕ)
get_bytes_and_reset c =
    (record c { bytes_read = 0; bytes_written = 0 }, (c.bytes_read, c.bytes_written))

-- Call, of which the underlying client moves these bytes: the state, and the two sizes that are observed.
abbrev pub call : ℕ → ℕ → TtlClient → TtlClient × (ℕ × ℕ)
call read written c = get_bytes_and_reset (counted read written c)

-- `alive` is what IsOpen of the transport returns.
abbrev pub is_expired : Instant → TtlClient → Bool
is_expired now c = if is_zero c.expiration then false else before c.expiration now

abbrev pub is_open : Instant → Bool → TtlClient → TtlClient × Bool
is_open now alive c =
    if not alive
    then (c, false)
    else if is_expired now c
    then (record c { shut = c.transport ∷ c.shut }, false)
    else (c, true)

-- The first part of refresh: a failure leaves all as it is.
abbrev pub generate : Bool → TtlClient → TtlClient
generate fine c =
    if fine then record c { made = suc c.made; refreshed = c.made ∷ c.refreshed } else c

abbrev pub remove_one : ℕ → List ℕ → List ℕ
remove_one t [] = []
remove_one t (u ∷ us) = if u == t then us else u ∷ remove_one t us

-- The second part, for the transport `t` of its generator.
abbrev pub replace : Instant → ℕ → TtlClient → TtlClient
replace now t c =
    let r = renew now c in
    record r {
      client = t;
      shut = c.transport ∷ c.shut;
      transport = t;
      refreshed = remove_one t c.refreshed;
      bytes_read = 0;
      bytes_written = 0;
    }

abbrev pub put_in : Instant → ℕ → TtlClient → TtlClient
put_in now t c =
    if c.closed
    then record c { shut = t ∷ c.shut; refreshed = remove_one t c.refreshed }
    else replace now t c

-- The default stands for an age of zero.
abbrev pub age_of : ℤ → ℤ
age_of ttl =
    if is_negative ttl then ttl else if ltb_ℤ (pos 0) ttl then ttl else default_max_connection_age

abbrev pub fresh : ℤ → TtlClient
fresh duration = record {
  ttl = duration;
  client = 0;
  transport = 0;
  expiration = 0;
  timer = none;
  closed = false;
  made = 1;
  refreshed = [];
  shut = [];
  bytes_read = 0;
  bytes_written = 0;
}

-- newTTLClient: whether its generator makes a transport, and what JitterDuration draws.
abbrev pub new_ttl_client : Bool → Instant → Float64 → ℤ → Float64 → Option TtlClient
new_ttl_client fine now drawn ttl jitter =
    if fine then some (renew now (fresh (jitter_duration drawn (age_of ttl) jitter))) else none

pub data Event : Type 0 where
  calls : ℕ → ℕ → Event
  asks : Instant → Bool → Event
  closes : Event
  fires : Instant → Bool → Event
  puts_in : Instant → ℕ → Event

abbrev pub handle : Event → TtlClient → TtlClient
handle (calls read written) c = (call read written c).0
handle (asks now alive) c = (is_open now alive c).0
handle closes c = close c
handle (fires now fine) c = generate fine (record c { timer = none })
handle (puts_in now t) c = put_in now t c

abbrev pub IsDue : Instant → Option Instant → Type 0
IsDue now none = ⊥
IsDue now (some due) = due ≤ now

abbrev pub IsPossible : Event → TtlClient → Type 0
IsPossible (calls read written) c = Unit {0}
IsPossible (asks now alive) c = Unit {0}
IsPossible closes c = Unit {0}
IsPossible (fires now fine) c = IsDue now c.timer
IsPossible (puts_in now t) c = 0 < count t c.refreshed

-- The events of a history, the latest first.
pub data Runs (c : TtlClient) : List Event → TtlClient → Type 0 where
  here : Runs c [] c
  next :
      {d d' : TtlClient} {es : List Event} (e : Event)
      → Runs c es d
      → IsPossible e d
      → d' ≡ handle e d
      → Runs c (e ∷ es) d'
