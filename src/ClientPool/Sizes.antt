-- ===== src/ClientPool/Sizes.antt =====
-- The number of clients of a new pool (NewChannelPool of clientpool/channel.go).
use baseplate_go.Common.{
  ℕ, zero, suc, ◌+◌, ◌≤◌, ◌≡◌, refl, false, ◌&&◌, List, [], ◌∷◌, ◌++◌, Option, none, some, length,
  length-append, arith, Bool-cases, inl, inr, lt→ltb,
}
use baseplate_go.Common.Int.{pos, leb_ℤ, -ℤ_parts}
use baseplate_go.ClientPool.{Error, Outcome, ok, err, panic}
use baseplate_go.ClientPool.New.{
  Attempt, ctx_done, attempt, Made, made, refused, panicked, blocked, pending, Filled, filled,
  gave_up, fault, stuck, more, fill_required, fill_best_effort, finish, then_best_effort,
  new_channel_pool,
}

abbrev Sized : {R : Type 0} → ℕ → ℕ → Filled R → Type 0
Sized lo hi (filled pool rest) = (lo ≤ length pool) × (length pool ≤ hi)
Sized lo hi (gave_up e pool rest) = Unit
Sized lo hi fault = Unit
Sized lo hi stuck = ⊥
Sized lo hi more = Unit

fill_required-Sized :
    (size need : ℕ) (last : Option Error) (pool : List ℕ) (ts : List Attempt) (n : ℕ)
    → length pool + need ≡ n
    → n ≤ size
    → Sized n n (fill_required size need last pool ts)
unfolding fill_required
fill_required-Sized size zero last pool ts n e h = omega arith
fill_required-Sized size (suc k) last pool [] n e h = tt
fill_required-Sized size (suc k) last pool (ctx_done x ∷ ts) n e h = tt
fill_required-Sized size (suc k) last pool (attempt (ok c) ∷ ts) n e h =
    rw (lt→ltb (length pool) size (omega arith)) (
      fill_required-Sized size k last (pool ++ c ∷ []) ts n
        (omega (arith, length-append pool (c ∷ []))) h)
fill_required-Sized size (suc k) last pool (attempt (err x) ∷ ts) n e h =
    fill_required-Sized size (suc k) (some x) pool ts n e h
fill_required-Sized size (suc k) last pool (attempt panic ∷ ts) n e h = tt

fill_best_effort-Sized :
    (size rounds : ℕ) (pool : List ℕ) (us : List (Outcome ℕ)) (lo hi : ℕ)
    → lo ≤ length pool
    → length pool + rounds ≤ hi
    → hi ≤ size
    → Sized lo hi (fill_best_effort size rounds pool us)
unfolding fill_best_effort
fill_best_effort-Sized size zero pool us lo hi h k l = omega arith
fill_best_effort-Sized size (suc n) pool [] lo hi h k l = tt
fill_best_effort-Sized size (suc n) pool (ok c ∷ us) lo hi h k l =
    rw (lt→ltb (length pool) size (omega arith)) (
      fill_best_effort-Sized size n (pool ++ c ∷ []) us lo hi
        (omega (arith, length-append pool (c ∷ []))) (omega (arith, length-append pool (c ∷ []))) l)
fill_best_effort-Sized size (suc n) pool (err x ∷ us) lo hi h k l = omega arith
fill_best_effort-Sized size (suc n) pool (panic ∷ us) lo hi h k l = tt

-- A new pool is open, nothing is lent, and it holds the required clients at least and the best-effort
-- number at most. The constructor never waits on a full channel.
abbrev pub StartsWith : ℕ → ℕ → ℕ → Made → Type 0
StartsWith r b m (made p ts us) =
    (r ≤ length p.pool)
    × (length p.pool ≤ b)
    × (b ≤ m)
    × (p.max_clients ≡ m)
    × (p.num_active ≡ 0)
    × (p.shut ≡ false)
    × (p.closed ≡ [])
StartsWith r b m (refused e cs ts us) = Unit
StartsWith r b m panicked = Unit
StartsWith r b m blocked = ⊥
StartsWith r b m pending = Unit

finish-StartsWith :
    (r b m : ℕ) (ts : List Attempt) (f : Filled (Outcome ℕ))
    → b ≤ m
    → Sized r b f
    → StartsWith r b m (finish m ts f)
finish-StartsWith r b m ts (filled pool us) h (lo, hi) = (lo, hi, h, refl, refl, refl, refl)
finish-StartsWith r b m ts (gave_up e pool us) h s = tt
finish-StartsWith r b m ts fault h s = tt
finish-StartsWith r b m ts stuck h s = s
finish-StartsWith r b m ts more h s = tt

then-StartsWith :
    (r b m k : ℕ) (us : List (Outcome ℕ)) (f : Filled Attempt)
    → r + k ≡ b
    → b ≤ m
    → Sized r r f
    → StartsWith r b m (then_best_effort m k us f)
then-StartsWith r b m k us (filled pool ts) e h (lo, hi) =
    finish-StartsWith r b m ts _ h (fill_best_effort-Sized m k pool us r b lo (omega arith) h)
then-StartsWith r b m k us (gave_up x pool ts) e h s = tt
then-StartsWith r b m k us fault e h s = tt
then-StartsWith r b m k us stuck e h s = s
then-StartsWith r b m k us more e h s = tt

-- At counts that are not negative NewChannelPool never blocks, whatever the opener does, and a pool
-- that it returns is open, has nothing lent, and holds at least the required number of clients and at
-- most the best-effort number, which is within the capacity.
pub new_channel_pool-StartsWith :
    (required best_effort max_clients : ℕ) (ts : List Attempt) (us : List (Outcome ℕ))
    → StartsWith required best_effort max_clients
        (new_channel_pool (pos required) (pos best_effort) (pos max_clients) ts us)
unfolding new_channel_pool
new_channel_pool-StartsWith r b m ts us =
    elim (Bool-cases (leb_ℤ (pos r) (pos b) && leb_ℤ (pos b) (pos m))) [
      | inl e ↦ rw e (
          then-StartsWith r b m _ us _ (ground (arith, -ℤ_parts (pos b) (pos r))) (ground arith)
            (fill_required-Sized m r none [] ts r (omega arith) (ground arith)))
      | inr e ↦ rw e tt
    ]
