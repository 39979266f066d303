-- ===== src/ClientPool/Bounds.antt =====
-- The bound on the clients of the pool of clientpool/channel.go between two calls.
use baseplate_go.Common.{
  ap, ℕ, ◌+◌, ◌-◌, ◌^◌, ◌≤◌, ◌<◌, ◌≡◌, refl, Bool, true, false, List, [], ◌∷◌, ◌++◌, Option, none,
  some, length, length-append, if◌then◌else◌, arith, Bool-cases, inl, inr,
}
use baseplate_go.ClientPool.{
  get_after_close, Outcome, ok, err, panic, Env, ChannelPool, is_exhausted, lend, open_new, get,
  put_back, replace, release, deactivate, close_client,
}

pub record Inv (p : ChannelPool) : Type 0 where
  pub within : p.num_active + length p.pool ≤ p.max_clients
  pub fits : p.max_clients < 2 ^ 31

-- Below the bound the int32 comparison is the comparison of the numbers.
pub is_exhausted-false :
    (p : ChannelPool) → Inv p → is_exhausted p ≡ false → p.num_active < p.max_clients
unfolding is_exhausted
is_exhausted-false p v h = ground arith

pub is_exhausted_iff :
    (p : ChannelPool) → Inv p → p.num_active < p.max_clients → is_exhausted p ≡ false
unfolding is_exhausted
is_exhausted_iff p v h = ground arith

-- One client fewer than the bound: what holds inside Get and Release.
record Room (p : ChannelPool) : Type 0 where
  room : p.num_active + length p.pool < p.max_clients
  fits : p.max_clients < 2 ^ 31

lend-Inv : (p : ChannelPool) (r : Outcome ℕ) → Room p → Inv (lend p r).0
lend-Inv p (ok c) v = ground arith
lend-Inv p (err e) v = ground arith
lend-Inv p panic v = ground arith

open_new-Inv :
    (p : ChannelPool) (env : Env)
    → Inv p
    → (is_exhausted p ≡ false → Room p)
    → Inv (open_new p env).0
open_new-Inv p env v h = elim (Bool-cases (is_exhausted p)) [
  | inl e ↦ rw e v
  | inr e ↦ rw e (lend-Inv p env.opener (h e))
]

get_empty :
    (p : ChannelPool) (env : Env) (shut : Bool)
    → Inv p
    → Inv (open_new p env).0
    → Inv (if shut then (p, err get_after_close) else open_new p env).0
get_empty p env true v w = v
get_empty p env false v w = w

get_from : (p : ChannelPool) (env : Env) (xs : List ℕ) → p.pool ≡ xs → Inv p → Inv (get p env).0
unfolding get
get_from p env [] e v =
    rw (e, get)
      (get_empty p env p.shut v (
        open_new-Inv p env v λ h. record {
          room = omega (arith, is_exhausted-false p v h, ap length e);
          fits = v.fits;
        }))
get_from p env (c ∷ rest) e v =
    let q = record p { pool = rest } in
    let w : Room q = record { room = omega (arith, v.within, ap length e); fits = v.fits } in
    rw (e, get)
      (elim (Bool-cases (env.is_open c)) [
        | inl o ↦ rw o (lend-Inv q (ok c) w)
        | inr o ↦ rw o (
            open_new-Inv (close_client q c) env
              (record { within = omega (arith, w.room); fits = v.fits })
              λ h. record { room = w.room; fits = v.fits })
      ])

-- Get keeps the bound, whatever the client and the opener answer.
pub get-Inv : (p : ChannelPool) (env : Env) → Inv p → Inv (get p env).0
get-Inv p env v = get_from p env p.pool refl v

put_back-Inv : (p : ChannelPool) (c : ℕ) (env : Env) → Room p → Inv (put_back p c env).0
put_back-Inv p c env v = ground (arith, length-append p.pool (c ∷ []))

replace-Inv : (p : ChannelPool) (env : Env) (r : Outcome ℕ) → Room p → Inv (replace p env r).0
replace-Inv p env (ok c) v = put_back-Inv p c env v
replace-Inv p env (err e) v = ground arith
replace-Inv p env panic v = ground arith

deactivate-Room : (p : ChannelPool) → 0 < p.num_active → Inv p → Room (deactivate p)
deactivate-Room p h v = ground arith

-- Release of a lent client keeps the bound too.
pub release-Inv :
    (p : ChannelPool) (c : Option ℕ) (env : Env)
    → 0 < p.num_active
    → Inv p
    → Inv (release p c env).0
unfolding release
release-Inv p none env h v = v
release-Inv p (some c) env h v =
    let w = deactivate-Room p h v in
    elim (Bool-cases (env.is_open c)) [
      | inl o ↦ rw o (put_back-Inv (deactivate p) c env w)
      | inr o ↦ rw o (
          replace-Inv (close_client (deactivate p) c) env env.opener
            (record { room = w.room; fits = w.fits }))
    ]

-- So the branch of Release for a full channel is never taken: an open client that was lent goes to the
-- end of the channel, Release returns no error, and nothing is closed.
pub release_never_full :
    (p : ChannelPool) (c : ℕ) (env : Env)
    → Inv p
    → 0 < p.num_active
    → p.shut ≡ false
    → env.is_open c ≡ true
    → release p (some c) env
      ≡ (record p { num_active = p.num_active - 1; pool = p.pool ++ c ∷ [] }, ok tt)
unfolding release
release_never_full p c env v h s o = ground arith
