-- ===== src/ClientPool/Race.antt =====
-- Get of clientpool/channel.go in two parts: it calls the opener between its test of the counter and its
-- deferred increment.
use baseplate_go.Common.{
  sym, refl, ◌^◌, ℕ, ◌+◌, ◌<◌, ◌≡◌, Bool, true, false, List, [], ◌∷◌, if◌then◌else◌, arith,
  Bool-cases, inl, inr,
}
use baseplate_go.ClientPool.{
  exhausted, get_after_close, Outcome, ok, err, Env, ChannelPool, is_exhausted, lend, open_new, get,
  close_client,
}

-- What a goroutine does next after the first part of Get.
pub data Progress : Type 0 where
  done : Outcome ℕ → Progress
  opening : Progress

abbrev pub admit : ChannelPool → ChannelPool × Progress
admit p = if is_exhausted p then (p, done (err exhausted)) else (p, opening)

-- The first part of Get: it receives from the channel and tests the counter.
unfoldable pub get_begin : ChannelPool → Env → ChannelPool × Progress
get_begin p env = elim p.pool [
  | [] ↦ if p.shut then (p, done (err get_after_close)) else admit p
  | c ∷ rest ↦
      let q = record p { pool = rest } in
      if env.is_open c then (q, done (ok c)) else admit (close_client q c)
]

-- The second part: the opener's answer, and the deferred increment.
unfoldable pub get_end : ChannelPool → Progress → Env → ChannelPool × Outcome ℕ
get_end p (done r) env = lend p r
get_end p opening env = lend p env.opener

admit-end : (p : ChannelPool) (env : Env) → get_end (admit p).0 (admit p).1 env ≡ open_new p env
unfolding get_end
admit-end p env = elim (Bool-cases (is_exhausted p)) [ inl e ↦ rw e | inr e ↦ rw e ]

get_at-parts :
    (xs : List ℕ) (shut : Bool) (n m : ℕ) (closed : List ℕ) (env : Env)
    → let p : ChannelPool = record {
      pool = xs;
      shut = shut;
      num_active = n;
      max_clients = m;
      closed = closed;
    } in
      get p env ≡ get_end (get_begin p env).0 (get_begin p env).1 env
unfolding get get_begin
get_at-parts [] true n m closed env = unfold get_end in refl
get_at-parts [] false n m closed env = sym (admit-end _ env)
get_at-parts (c ∷ rest) shut n m closed env = elim (Bool-cases (env.is_open c)) [
  | inl e ↦ rw e (unfold get_end in refl)
  | inr e ↦ rw e (sym (admit-end _ env))
]

-- Run without a break, the two parts are Get.
pub get-parts :
    (p : ChannelPool) (env : Env) → get p env ≡ get_end (get_begin p env).0 (get_begin p env).1 env
get-parts p env = get_at-parts p.pool p.shut p.num_active p.max_clients p.closed env

-- Two calls of Get that overlap in their calls of the opener.
unfoldable pub overlap : ChannelPool → Env → Env → ChannelPool
unfolding get_begin get_end
overlap p env env' =
    let (p1, k) = get_begin p env in
    let (p2, k') = get_begin p1 env' in let (p3, r) = get_end p2 k env in (get_end p3 k' env').0

-- On an open pool with an empty channel and one client short of its capacity, two overlapping calls of
-- Get whose openers succeed leave more clients lent than the capacity allows.
pub overlap_exceeds :
    (p : ChannelPool) (env env' : Env) (c c' : ℕ)
    → p.pool ≡ []
    → p.shut ≡ false
    → p.num_active + 1 ≡ p.max_clients
    → p.max_clients < 2 ^ 31
    → env.opener ≡ ok c
    → env'.opener ≡ ok c'
    → (overlap p env env').num_active ≡ p.max_clients + 1
unfolding overlap is_exhausted
overlap_exceeds p env env' c c' x s n m e e' = ground arith
