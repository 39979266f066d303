-- ===== src/ClientPool/History.antt =====
-- Histories of Get, Release and Close, on channelPool of clientpool/channel.go.
use baseplate_go.Common.{
  ℕ, suc, ◌+◌, ◌≡◌, Bool, true, false, List, [], ◌∷◌, ◌++◌, some, length, if◌then◌else◌, count,
}
use baseplate_go.ClientPool.{
  Outcome, ok, err, panic, Env, ChannelPool, is_exhausted, get, release, close,
}
use baseplate_go.ClientPool.Bounds.{Inv}

-- What the callers see: the pool, the clients that they hold, all that the opener handed out, and the
-- number of calls of Get in which the opener panicked.
pub record System : Type 0 where
  pub pool : ChannelPool
  pub lent : List ℕ
  pub opened : List ℕ
  pub leaked : ℕ

-- Whether a call got to the opener, and what it handed out.
abbrev pub handed_out : Bool → Outcome ℕ → List ℕ
handed_out true (ok c) = c ∷ []
handed_out true (err e) = []
handed_out true panic = []
handed_out false r = []

-- Get reaches the opener unless a client of the channel is open, the channel is closed, or the pool
-- is exhausted.
abbrev pub get_opens : ChannelPool → Env → Bool
get_opens p env = elim p.pool [
  | [] ↦ if p.shut then false else if is_exhausted p then false else true
  | c ∷ rest ↦ if env.is_open c then false else if is_exhausted p then false else true
]

abbrev pub lent_to : Outcome ℕ → List ℕ → List ℕ
lent_to (ok c) lent = c ∷ lent
lent_to (err e) lent = lent
lent_to panic lent = lent

abbrev pub leaked_by : Outcome ℕ → ℕ → ℕ
leaked_by (ok c) n = n
leaked_by (err e) n = n
leaked_by panic n = suc n

abbrev pub after_get : System → Env → System
after_get s env =
    let (p, r) = get s.pool env in
    record {
      pool = p;
      lent = lent_to r s.lent;
      opened = handed_out (get_opens s.pool env) env.opener ++ s.opened;
      leaked = leaked_by r s.leaked;
    }

-- A caller gives back a client that it holds, on a pool that is not closed. A second Close panics.
pub data Step (s : System) : System → Type 0 where
  gets : (env : Env) → Step s (after_get s env)
  releases :
      (env : Env) (c : ℕ) (xs ys : List ℕ) {t : System}
      → s.lent ≡ xs ++ c ∷ ys
      → s.pool.shut ≡ false
      → t ≡ record {
        pool = (release s.pool (some c) env).0;
        lent = xs ++ ys;
        opened = handed_out (if env.is_open c then false else true) env.opener ++ s.opened;
        leaked = s.leaked;
      }
      → Step s t
  closes : (env : Env) {t : System} → t ≡ record s { pool = (close s.pool env).0 } → Step s t

pub data Reach (s : System) : System → Type 0 where
  here : Reach s s
  next : {t u : System} → Reach s t → Step t u → Reach s u

pub record Balanced (s : System) : Type 0 where
  pub inv : Inv s.pool
  pub counted : s.pool.num_active ≡ s.leaked + length s.lent
  pub accounted :
      (a : ℕ) → count a s.pool.pool + count a s.lent + count a s.pool.closed ≡ count a s.opened
