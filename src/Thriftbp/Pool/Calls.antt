-- ===== src/Thriftbp/Pool/Calls.antt =====
-- What a call through the pool leaves behind (pooledCall of thriftbp/client_pool.go).
use baseplate_go.Common.{
  ap, ◌∙◌, ℕ, ◌+◌, ◌-◌, ◌^◌, ◌<◌, ◌≡◌, refl, List, [], ◌∷◌, Option, some, if_elim, arith,
}
use baseplate_go.ClientPool.{
  get_after_close, Outcome, ok, err, panic, Env, ChannelPool, i32, is_exhausted, lend, open_new,
  get, put_back, replace, release, deactivate, close_client, exhausted,
}
use baseplate_go.Thriftbp.Errors.{Failure, should_close_connection}
use baseplate_go.Thriftbp.Pool.{
  ThriftPool, Called, CallResult, count_get, get_client, count_release, release_client, error_of,
  result_of, close_broken, call_with, pooled_call,
}

-- The counter of the channel pool after a Get: one more for a client, and for a panic of the opener.
abbrev Active : ℕ → ChannelPool × Outcome ℕ → Type 0
Active n (q, ok c) = q.num_active ≡ i32 (n + 1)
Active n (q, err e) = q.num_active ≡ n
Active n (q, panic) = q.num_active ≡ i32 (n + 1)

lend-Active : (p : ChannelPool) (r : Outcome ℕ) → Active p.num_active (lend p r)
lend-Active p (ok c) = refl
lend-Active p (err e) = refl
lend-Active p panic = refl

open_new-Active : (p : ChannelPool) (env : Env) → Active p.num_active (open_new p env)
open_new-Active p env =
    if_elim {A = ChannelPool × Outcome ℕ} (Active p.num_active) (is_exhausted p) (p, err exhausted)
      (lend p env.opener) (λ e. refl) (λ e. lend-Active p env.opener)

get_from :
    (p : ChannelPool) (env : Env) (xs : List ℕ) → p.pool ≡ xs → Active p.num_active (get p env)
unfolding get
get_from p env [] e =
    rw (e, get)
      (if_elim {A = ChannelPool × Outcome ℕ} (Active p.num_active) p.shut (p, err get_after_close)
        (open_new p env) (λ e. refl) (λ e. open_new-Active p env))
get_from p env (c ∷ rest) e =
    rw (e, get)
      (if_elim {A = ChannelPool × Outcome ℕ} (Active p.num_active) (env.is_open c) _ _ (λ e. refl)
        (λ e. open_new-Active (close_client (record p { pool = rest }) c) env))

put_back-active :
    (p : ChannelPool) (c : ℕ) (env : Env) → (put_back p c env).0.num_active ≡ p.num_active
put_back-active p c env = ground arith

replace-active :
    (p : ChannelPool) (env : Env) (r : Outcome ℕ) → (replace p env r).0.num_active ≡ p.num_active
replace-active p env (ok c) = put_back-active p c env
replace-active p env (err e) = refl
replace-active p env panic = refl

release-active :
    (p : ChannelPool) (c : ℕ) (env : Env)
    → (release p (some c) env).0.num_active ≡ i32 (p.num_active + (2 ^ 32 - 1))
unfolding release
release-active p c env =
    if_elim {A = ChannelPool × Outcome (Unit {0})}
      (λ r. r.0.num_active ≡ i32 (p.num_active + (2 ^ 32 - 1))) (env.is_open c)
      (put_back (deactivate p) c env) (replace (close_client (deactivate p) c) env env.opener)
      (λ e. put_back-active (deactivate p) c env)
      (λ e. replace-active (close_client (deactivate p) c) env env.opener)

-- After a Get the counter is as before, or one client is lent.
abbrev Lent : ℕ → ThriftPool × Outcome ℕ → Type 0
Lent n (p, ok c) = p.channel.num_active ≡ i32 (n + 1)
Lent n (p, err e) = p.channel.num_active ≡ n
Lent n (p, panic) = p.channel.num_active ≡ i32 (n + 1)

count_get-Lent :
    (n : ℕ) (p : ThriftPool) (r : ChannelPool × Outcome ℕ) → Active n r → Lent n (count_get p r)
count_get-Lent n p (q, ok c) h = h
count_get-Lent n p (q, err e) h = h
count_get-Lent n p (q, panic) h = h

count_release-channel :
    (p : ThriftPool) (r : CallResult) (q : ChannelPool) (o : Outcome (Unit {0}))
    → (count_release p r (q, o)).0.channel ≡ q
count_release-channel p r q (ok u) = refl
count_release-channel p r q (err e) = refl
count_release-channel p r q panic = refl

close_broken-active :
    (p : ThriftPool) (c : ℕ) (e : Option Failure)
    → (close_broken p c e).channel.num_active ≡ p.channel.num_active
close_broken-active p c e =
    if_elim (λ q. q.channel.num_active ≡ p.channel.num_active) (should_close_connection e) _ p
      (λ h. refl) (λ h. refl)

-- All but a panic of Get.
abbrev IsNoPanic : Outcome ℕ → Type 0
IsNoPanic (ok c) = Unit {0}
IsNoPanic (err e) = Unit {0}
IsNoPanic panic = ⊥

call_with-active :
    (n : ℕ) (r : ThriftPool × Outcome ℕ) (called : Called) (env : Env)
    → n < 2 ^ 32
    → Lent n r
    → IsNoPanic r.1
    → (call_with r called env).0.channel.num_active ≡ n
unfolding release_client
call_with-active n (p, ok c) called env small h k =
    let q = close_broken p c (error_of called) in
    let (after, o) = release q.channel (some c) env in
    ap (λ (s : ChannelPool). s.num_active) (count_release-channel q (result_of called) after o)
    ∙ release-active q.channel c env
    ∙ ap (λ m. i32 (m + (2 ^ 32 - 1))) (close_broken-active p c (error_of called) ∙ h)
    ∙ omega arith
call_with-active n (p, err e) called env small h k = h
call_with-active n (p, panic) called env small h k = absurd k

-- A call through the pool leaves the counter of lent clients as it was, however Get, Call and Release end,
-- a panic of Call or of Release included, if only Get does not panic.
pub pooled_call-active :
    (p : ThriftPool) (env : Env) (called : Called) (env' : Env)
    → p.channel.num_active < 2 ^ 32
    → IsNoPanic (get_client p env).1
    → (pooled_call p env called env').0.channel.num_active ≡ p.channel.num_active
unfolding pooled_call get_client
pooled_call-active p env called env' small h =
    call_with-active p.channel.num_active (count_get p (get p.channel env)) called env' small
      (count_get-Lent p.channel.num_active p (get p.channel env)
        (get_from p.channel env p.channel.pool refl))
      h
