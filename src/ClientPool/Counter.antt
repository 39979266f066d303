-- ===== src/ClientPool/Counter.antt =====
-- numActive of clientpool/channel.go, call by call.
use baseplate_go.Common.{
  ℕ, ◌+◌, ◌^◌, ◌<◌, ◌≡◌, Bool, true, false, List, [], ◌∷◌, ◌++◌, some, length, length-append, arith,
  Bool-cases, inl, inr,
}
use baseplate_go.ClientPool.{
  Outcome, ok, err, panic, Env, ChannelPool, is_exhausted, lend, open_new, get, release,
}
use baseplate_go.ClientPool.Bounds.{Inv}
use baseplate_go.ClientPool.History.{lent_to, leaked_by}

lend-counted :
    (p : ChannelPool) (r : Outcome ℕ) (l : ℕ) (lent : List ℕ)
    → p.num_active + 1 < 2 ^ 32
    → p.num_active ≡ l + length lent
    → (lend p r).0.num_active ≡ leaked_by (lend p r).1 l + length (lent_to (lend p r).1 lent)
lend-counted p (ok c) l lent h e = omega arith
lend-counted p (err x) l lent h e = e
lend-counted p panic l lent h e = omega arith

open_new-counted :
    (p : ChannelPool) (env : Env) (l : ℕ) (lent : List ℕ)
    → p.num_active + 1 < 2 ^ 32
    → p.num_active ≡ l + length lent
    → (open_new p env).0.num_active
      ≡ leaked_by (open_new p env).1 l + length (lent_to (open_new p env).1 lent)
open_new-counted p env l lent h e = elim (Bool-cases (is_exhausted p)) [
  | inl x ↦ rw x e
  | inr x ↦ rw x (lend-counted p env.opener l lent h e)
]

pub get_at-counted :
    (xs : List ℕ) (shut : Bool) (n m : ℕ) (closed : List ℕ) (env : Env) (l : ℕ) (lent : List ℕ)
    → let p : ChannelPool = record {
      pool = xs;
      shut = shut;
      num_active = n;
      max_clients = m;
      closed = closed;
    } in
      n + 1 < 2 ^ 32
      → n ≡ l + length lent
      → (get p env).0.num_active ≡ leaked_by (get p env).1 l + length (lent_to (get p env).1 lent)
unfolding get
get_at-counted [] true n m closed env l lent h e = e
get_at-counted [] false n m closed env l lent h e = open_new-counted _ env l lent h e
get_at-counted (c ∷ rest) shut n m closed env l lent h e = elim (Bool-cases (env.is_open c)) [
  | inl o ↦ rw o (omega arith)
  | inr o ↦ rw o (open_new-counted _ env l lent h e)
]

pub release-counted :
    (p : ChannelPool) (env : Env) (c l : ℕ) (xs ys : List ℕ)
    → Inv p
    → p.num_active ≡ l + length (xs ++ c ∷ ys)
    → (release p (some c) env).0.num_active ≡ l + length (xs ++ ys)
unfolding release
release-counted p env c l xs ys v e = ground (arith, length-append xs ys, length-append xs (c ∷ ys))
