-- ===== src/ClientPool/Accounts.antt =====
-- What one call of clientpool/channel.go does to the places where a client can be.
use baseplate_go.Common.{
  Option, ℕ, ◌+◌, ◌≡◌, ◌∙◌, Bool, true, false, List, [], ◌∷◌, ◌++◌, some, ltb, length,
  if◌then◌else◌, arith, Bool-cases, inl, inr, count, count-append,
}
use baseplate_go.ClientPool.{
  Error, Outcome, ok, err, panic, Env, ChannelPool, is_exhausted, lend, open_new, get, put_back,
  replace, release, close_all, deactivate, close_client,
}
use baseplate_go.ClientPool.History.{handed_out, get_opens, lent_to}

-- What a change of the three places does to the number of each client.
abbrev pub Accounts : ChannelPool → List ℕ → List ℕ → Type 0
Accounts p lent opened = (a : ℕ) → count a p.pool + count a lent + count a p.closed ≡ count a opened

lend-Accounts :
    (p : ChannelPool) (r : Outcome ℕ) (lent opened : List ℕ)
    → Accounts p lent opened
    → Accounts (lend p r).0 (lent_to (lend p r).1 lent) (handed_out true r ++ opened)
lend-Accounts p (ok c) lent opened h a = omega (arith, h a)
lend-Accounts p (err e) lent opened h a = h a
lend-Accounts p panic lent opened h a = h a

open_new-Accounts :
    (p : ChannelPool) (env : Env) (lent opened : List ℕ)
    → Accounts p lent opened
    → Accounts
        (open_new p env).0
        (lent_to (open_new p env).1 lent)
        (handed_out (if is_exhausted p then false else true) env.opener ++ opened)
open_new-Accounts p env lent opened h = elim (Bool-cases (is_exhausted p)) [
  | inl e ↦ rw e h
  | inr e ↦ rw e (lend-Accounts p env.opener lent opened h)
]

pub get_at-Accounts :
    (xs : List ℕ) (shut : Bool) (n m : ℕ) (closed : List ℕ) (env : Env) (lent opened : List ℕ)
    → let p : ChannelPool = record {
      pool = xs;
      shut = shut;
      num_active = n;
      max_clients = m;
      closed = closed;
    } in
      Accounts p lent opened
      → Accounts
          (get p env).0
          (lent_to (get p env).1 lent)
          (handed_out (get_opens p env) env.opener ++ opened)
unfolding get
get_at-Accounts [] true n m closed env lent opened h = h
get_at-Accounts [] false n m closed env lent opened h = open_new-Accounts _ env lent opened h
get_at-Accounts (c ∷ rest) shut n m closed env lent opened h = elim (Bool-cases (env.is_open c)) [
  | inl o ↦ rw o (λ a. omega (arith, h a))
  | inr o ↦
      rw o (unfold is_exhausted in open_new-Accounts _ env lent opened (λ a. omega (arith, h a)))
]

put_back-Accounts :
    (p : ChannelPool) (c : ℕ) (env : Env) (lent opened : List ℕ)
    → p.shut ≡ false
    → Accounts p (c ∷ lent) opened
    → Accounts (put_back p c env).0 lent opened
put_back-Accounts p c env lent opened s h =
    simp s (elim (Bool-cases (ltb (length p.pool) p.max_clients)) [
      | inl e ↦ rw e (λ a. omega (arith, h a, count-append a p.pool (c ∷ [])))
      | inr e ↦ rw e (λ a. omega (arith, h a))
    ])

replace-Accounts :
    (p : ChannelPool) (env : Env) (r : Outcome ℕ) (lent opened : List ℕ)
    → p.shut ≡ false
    → Accounts p lent opened
    → Accounts (replace p env r).0 lent (handed_out true r ++ opened)
replace-Accounts p env (ok c) lent opened s h =
    put_back-Accounts p c env lent (c ∷ opened) s (λ a. omega (arith, h a))
replace-Accounts p env (err e) lent opened s h = h
replace-Accounts p env panic lent opened s h = h

pub release-Accounts :
    (p : ChannelPool) (env : Env) (c : ℕ) (lent opened : List ℕ)
    → p.shut ≡ false
    → Accounts p (c ∷ lent) opened
    → Accounts
        (release p (some c) env).0
        lent
        (handed_out (if env.is_open c then false else true) env.opener ++ opened)
unfolding release
release-Accounts p env c lent opened s h = elim (Bool-cases (env.is_open c)) [
  | inl o ↦ rw o (put_back-Accounts (deactivate p) c env lent opened s h)
  | inr o ↦ rw o (
      replace-Accounts (close_client (deactivate p) c) env env.opener lent opened s
        (λ a. omega (arith, h a)))
]

pub close_all-count :
    (env : Env) (a : ℕ) (cs log : List ℕ) (last : Option Error)
    → count a (close_all env cs log last).0 ≡ count a cs + count a log
unfolding close_all
close_all-count env a [] log last = omega arith
close_all-count env a (c ∷ cs) log last = close_all-count env a cs (c ∷ log) _ ∙ omega arith
