-- ===== src/ClientPool/Tests.antt =====
-- Small runs of the channel pool (clientpool/channel.go), and the theorems on them.
use baseplate_go.Common.{◌≡◌, ap, sym, refl, true, false, List, [], ◌∷◌, none, some, arith}
use baseplate_go.Common.Int.{pos, ◌-ℤ◌}
use baseplate_go.ClientPool.{ok, err, failed, Env, ChannelPool, is_exhausted, get, release, close}
use baseplate_go.ClientPool.New.{made, attempt, new_channel_pool, fill_required, fill_best_effort}
use baseplate_go.ClientPool.Sizes.{StartsWith, new_channel_pool-StartsWith}
use baseplate_go.ClientPool.Returns.{new_channel_pool_returns}
use baseplate_go.ClientPool.Bounds.{release_never_full}
use baseplate_go.ClientPool.History.{
  System, gets, releases, closes, here, next, Balanced, after_get,
}
use baseplate_go.ClientPool.Balance.{Reach-Balanced}
use baseplate_go.ClientPool.Race.{overlap, overlap_exceeds}

abbrev healthy : Env
healthy = record { is_open = λ c. true; opener = ok 9; close_err = λ c. none }

abbrev broken : Env
broken = record { is_open = λ c. false; opener = err (failed 3); close_err = λ c. some (failed c) }

abbrev idle_two : ChannelPool
idle_two = record { pool = 4 ∷ 5 ∷ []; shut = false; num_active = 0; max_clients = 3; closed = [] }

abbrev one_lent : ChannelPool
one_lent = record { pool = 4 ∷ 5 ∷ []; shut = false; num_active = 1; max_clients = 3; closed = [] }

abbrev almost : ChannelPool
almost = record { pool = []; shut = false; num_active = 2; max_clients = 3; closed = [] }

abbrev start : System
start = record { pool = idle_two; lent = []; opened = 4 ∷ 5 ∷ []; leaked = 0 }

-- A client of the channel comes first, oldest first.
get_idle : get idle_two healthy ≡ (record idle_two { pool = 5 ∷ []; num_active = 1 }, ok 4)
unfolding get
get_idle = refl

-- A broken idle client is closed, and a failing opener leaves the counter.
get-broken :
    get idle_two broken ≡ (record idle_two { pool = 5 ∷ []; closed = 4 ∷ [] }, err (failed 3))
unfolding get is_exhausted
get-broken = refl

-- The result of Close is the last error.
close_two :
    close idle_two broken
    ≡ (record idle_two { pool = []; shut = true; closed = 5 ∷ 4 ∷ [] }, err (failed 5))
unfolding close
close_two = refl

new_two :
    new_channel_pool
      (pos 1)
      (pos 2)
      (pos 3)
      (attempt (err (failed 1)) ∷ attempt (ok 4) ∷ [])
      (ok 5 ∷ [])
    ≡ made idle_two [] []
unfolding new_channel_pool fill_required fill_best_effort ◌-ℤ◌
new_two = refl

new_channel_pool-StartsWith_example :
    StartsWith 1 2 3 (new_channel_pool (pos 1) (pos 2) (pos 3) (attempt (ok 4) ∷ []) (ok 5 ∷ []))
new_channel_pool-StartsWith_example =
    new_channel_pool-StartsWith 1 2 3 (attempt (ok 4) ∷ []) (ok 5 ∷ [])

new_channel_pool_returns_example :
    (p : ChannelPool) × (ts : List _) × (us : List _) × (new_channel_pool
        (pos 1)
        (pos 2)
        (pos 3)
        (attempt (err (failed 1)) ∷ attempt (ok 4) ∷ [])
        (ok 5 ∷ [])
      ≡ made p ts us)
new_channel_pool_returns_example =
    new_channel_pool_returns 1 2 3 (attempt (err (failed 1)) ∷ attempt (ok 4) ∷ []) (ok 5 ∷ [])
      (omega arith) (omega arith) (tt, (tt, tt)) (omega arith) (tt, tt) (omega arith)

release_never_full_case :
    release one_lent (some 6) healthy
    ≡ (record one_lent { num_active = 0; pool = 4 ∷ 5 ∷ 6 ∷ [] }, ok tt)
release_never_full_case =
    release_never_full one_lent 6 healthy (record { within = omega arith; fits = omega arith })
      (omega arith) refl refl

start-Balanced : Balanced start
start-Balanced = record {
  inv = record { within = omega arith; fits = omega arith };
  counted = refl;
  accounted = λ a. omega arith;
}

lent_four : after_get start healthy ≡ record {
  pool = record idle_two { pool = 5 ∷ []; num_active = 1 };
  lent = 4 ∷ [];
  opened = 4 ∷ 5 ∷ [];
  leaked = 0;
}
unfolding get
lent_four = refl

abbrev given_back : System
given_back = record {
  pool = (release (after_get start healthy).pool (some 4) broken).0;
  lent = [];
  opened = 4 ∷ 5 ∷ [];
  leaked = 0;
}

Reach-Balanced_example : Balanced (record given_back { pool = (close given_back.pool broken).0 })
Reach-Balanced_example = Reach-Balanced start-Balanced (
    next
      (next (next here (gets healthy)) (
        releases broken 4 [] [] (ap (λ s. s.lent) lent_four) (ap (λ s. s.pool.shut) lent_four) (
          ap
            (λ s. record {
              pool = (release (after_get start healthy).pool (some 4) broken).0;
              lent = [];
              opened = s.opened;
              leaked = s.leaked;
            })
            (sym lent_four))))
      (closes broken refl))

overlap_exceeds_example : (overlap almost healthy healthy).num_active ≡ 4
overlap_exceeds_example =
    overlap_exceeds almost healthy healthy 9 9 refl refl refl (omega arith) refl refl
