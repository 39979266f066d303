-- ===== src/ClientPool/Returns.antt =====
-- The end of the loops of NewChannelPool (clientpool/channel.go).
use baseplate_go.Common.{
  ℕ, zero, suc, ◌+◌, ◌-◌, ◌≤◌, ◌≡◌, refl, true, false, ◌&&◌, List, [], ◌∷◌, ◌++◌, Option, none,
  some, length, length-append, arith, All, lt→ltb,
}
use baseplate_go.Common.Int.{pos, pos_part, leb_ℤ, ◌-ℤ◌, -ℤ_parts}
use baseplate_go.ClientPool.{Error, Outcome, ok, err, panic, ChannelPool}
use baseplate_go.ClientPool.New.{
  Attempt, ctx_done, attempt, made, filled, fill_required, fill_best_effort, new_channel_pool,
}
use baseplate_go.ClientPool.Initial.{successes}

-- The opener returns, with a client or an error.
abbrev pub Answers : Outcome ℕ → Type 0
Answers (ok c) = Unit
Answers (err e) = Unit
Answers panic = ⊥

-- The context is not done, and the opener returns.
abbrev pub GoesOn : Attempt → Type 0
GoesOn (ctx_done e) = ⊥
GoesOn (attempt r) = Answers r

fill_required-returns :
    (size need : ℕ) (last : Option Error) (pool : List ℕ) (ts : List Attempt)
    → length pool + need ≤ size
    → need ≤ length (successes ts)
    → All GoesOn ts
    → (pool' : List ℕ) × (rest : List Attempt) × (fill_required size need last pool ts
        ≡ filled pool' rest)
      × (length pool' ≡ length pool + need)
unfolding fill_required
fill_required-returns size zero last pool ts h n g = (pool, ts, refl, omega arith)
fill_required-returns size (suc k) last pool [] h n g = absurd (omega arith)
fill_required-returns size (suc k) last pool (ctx_done e ∷ ts) h n (g, gs) = absurd g
fill_required-returns size (suc k) last pool (attempt (ok c) ∷ ts) h n (g, gs) =
    let l = length-append pool (c ∷ []) in
    let (pool', rest, e, f) =
      fill_required-returns size k last (pool ++ c ∷ []) ts (omega (arith, l)) (omega arith) gs in
    (pool', rest, rw (lt→ltb (length pool) size (omega arith)) e, omega (arith, l))
fill_required-returns size (suc k) last pool (attempt (err x) ∷ ts) h n (g, gs) =
    fill_required-returns size (suc k) (some x) pool ts h n gs
fill_required-returns size (suc k) last pool (attempt panic ∷ ts) h n (g, gs) = absurd g

fill_best_effort-returns :
    (size rounds : ℕ) (pool : List ℕ) (us : List (Outcome ℕ))
    → length pool + rounds ≤ size
    → rounds ≤ length us
    → All Answers us
    → (pool' : List ℕ) × (rest : List (Outcome ℕ)) × (fill_best_effort size rounds pool us
        ≡ filled pool' rest)
unfolding fill_best_effort
fill_best_effort-returns size zero pool us h n g = (pool, us, refl)
fill_best_effort-returns size (suc k) pool [] h n g = absurd (omega arith)
fill_best_effort-returns size (suc k) pool (ok c ∷ us) h n (g, gs) =
    let l = length-append pool (c ∷ []) in
    let (pool', rest, e) =
      fill_best_effort-returns size k (pool ++ c ∷ []) us (omega (arith, l)) (omega arith) gs in
    (pool', rest, rw (lt→ltb (length pool) size (omega arith)) e)
fill_best_effort-returns size (suc k) pool (err x ∷ us) h n (g, gs) = (pool, us, refl)
fill_best_effort-returns size (suc k) pool (panic ∷ us) h n (g, gs) = absurd g

-- With counts in order, a context that is not done and an opener that always returns, NewChannelPool
-- returns a pool as soon as the opener has succeeded the required number of times and was then called
-- for the rest: the retry loop ends.
pub new_channel_pool_returns :
    (required best_effort max_clients : ℕ) (ts : List Attempt) (us : List (Outcome ℕ))
    → required ≤ best_effort
    → best_effort ≤ max_clients
    → All GoesOn ts
    → required ≤ length (successes ts)
    → All Answers us
    → best_effort ≤ required + length us
    → (p : ChannelPool) × (ts' : List Attempt) × (us' : List (Outcome ℕ)) × (new_channel_pool
          (pos required)
          (pos best_effort)
          (pos max_clients)
          ts
          us
        ≡ made p ts' us')
unfolding new_channel_pool
new_channel_pool_returns r b m ts us h k g n a l =
    let checked : (leb_ℤ (pos r) (pos b) && leb_ℤ (pos b) (pos m)) ≡ true = ground arith in
    let rounds = -ℤ_parts (pos b) (pos r) in
    let (pool, rest, e, f) = fill_required-returns m r none [] ts (omega arith) n g in
    let d : pos_part (pos b -ℤ pos r) ≡ b - r = ground (arith, rounds) in
    let (pool', rest', e') =
      fill_best_effort-returns m (pos_part (pos b -ℤ pos r)) pool us (omega arith) (omega arith)
        a in
    let p : ChannelPool = record {
      pool = pool';
      shut = false;
      num_active = 0;
      max_clients = m;
      closed = [];
    } in
    (p, rest, rest', rw checked (rw e (rw e')))
