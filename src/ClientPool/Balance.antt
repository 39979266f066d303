-- ===== src/ClientPool/Balance.antt =====
-- The accounts of a history of the pool of clientpool/channel.go.
use baseplate_go.Common.{
  Bool, true, false, none, none, ap, ℕ, suc, ◌+◌, ◌≡◌, sym, subst, ◌∙◌, true, false, List, ◌∷◌,
  ◌++◌, some, length, length-append, if◌then◌else◌, arith, count, count-append,
}
use baseplate_go.ClientPool.{ChannelPool, Env, release, close}
use baseplate_go.ClientPool.Bounds.{get-Inv, release-Inv}
use baseplate_go.ClientPool.History.{
  System, handed_out, after_get, Step, gets, releases, closes, Reach, here, next, Balanced,
}
use baseplate_go.ClientPool.Accounts.{get_at-Accounts, release-Accounts, close_all-count}
use baseplate_go.ClientPool.Counter.{get_at-counted, release-counted}

get-Balanced : (s : System) (env : Env) → Balanced s → Balanced (after_get s env)
get-Balanced s env b =
    let p = s.pool in
    let v = b.inv in
    record {
      inv = get-Inv p env v;
      counted =
          get_at-counted p.pool p.shut p.num_active p.max_clients p.closed env s.leaked s.lent
            (omega (arith, v.within, v.fits)) b.counted;
      accounted =
          get_at-Accounts p.pool p.shut p.num_active p.max_clients p.closed env s.lent s.opened
            b.accounted;
    }

release-Balanced :
    (s : System) (env : Env) (c : ℕ) (xs ys : List ℕ)
    → s.lent ≡ xs ++ c ∷ ys
    → s.pool.shut ≡ false
    → Balanced s
    → Balanced (record {
      pool = (release s.pool (some c) env).0;
      lent = xs ++ ys;
      opened = handed_out (if env.is_open c then false else true) env.opener ++ s.opened;
      leaked = s.leaked;
    })
release-Balanced s env c xs ys e shut b =
    let held : length s.lent ≡ length xs + suc (length ys) = rw e (length-append xs (c ∷ ys)) in
    record {
      inv = release-Inv s.pool (some c) env (omega (arith, b.counted)) b.inv;
      counted =
          release-counted s.pool env c s.leaked xs ys b.inv
            (b.counted ∙ ap (λ t. s.leaked + length t) e);
      accounted = release-Accounts s.pool env c (xs ++ ys) s.opened shut λ a.
          omega (
            arith,
            b.accounted a,
            ap (count a) e,
            count-append a xs (c ∷ ys),
            count-append a xs ys,
          );
    }

close_at-Balanced :
    (xs : List ℕ) (shut : Bool) (n m : ℕ) (closed lent opened : List ℕ) (leaked : ℕ) (env : Env)
    → let p : ChannelPool = record {
      pool = xs;
      shut = shut;
      num_active = n;
      max_clients = m;
      closed = closed;
    } in
      let s : System = record { pool = p; lent = lent; opened = opened; leaked = leaked } in
      Balanced s → Balanced (record s { pool = (close p env).0 })
unfolding close
close_at-Balanced xs true n m closed lent opened leaked env b = b
close_at-Balanced xs false n m closed lent opened leaked env b = record {
  inv = record { within = omega (arith, b.inv.within); fits = b.inv.fits };
  counted = b.counted;
  accounted = λ a. omega (arith, b.accounted a, close_all-count env a xs closed none);
}

close-Balanced :
    (s : System) (env : Env) → Balanced s → Balanced (record s { pool = (close s.pool env).0 })
close-Balanced s env b =
    let p = s.pool in
    close_at-Balanced p.pool p.shut p.num_active p.max_clients p.closed s.lent s.opened s.leaked env
      b

Step-Balanced : {s t : System} → Step s t → Balanced s → Balanced t
Step-Balanced {s} (gets env) b = get-Balanced s env b
Step-Balanced {s} (releases env c xs ys e shut f) b =
    subst Balanced (sym f) (release-Balanced s env c xs ys e shut b)
Step-Balanced {s} (closes env f) b = subst Balanced (sym f) (close-Balanced s env b)

-- After any history of Get, of Release by the holders before Close, and of Close, from a balanced state:
-- the clients counted and the idle ones are within the capacity; NumActiveClients is the number of lent
-- clients and of calls of Get in which the opener panicked; and every client that the opener handed
-- out is, as often as it was handed out, idle in the channel, lent, or closed.
pub Reach-Balanced : {s t : System} → Balanced s → Reach s t → Balanced t
Reach-Balanced b here = b
Reach-Balanced b (next r st) = Step-Balanced st (Reach-Balanced b r)
