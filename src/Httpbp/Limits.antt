-- ===== src/Httpbp/Limits.antt =====
-- MaxConcurrency of httpbp/client_middlewares.go, with its counter of active requests.
-- Each access of the counter is one step, in any order between requests: a request enters, and later leaves by
-- its deferred function, after it was sent or was refused. The counter is taken as a number that does not
-- overflow.
use baseplate_go.Common.{
  ℕ, ◌+◌, ◌-◌, ◌≤◌, ◌<◌, ◌≡◌, refl, Bool, false, ◌&&◌, if_elim, if◌then◌else◌, ltb, subst, sym, ap,
  ◌∙◌, arith,
}
use baseplate_go.Common.Int.{ℤ, pos, ◌+ℤ◌, ◌-ℤ◌, ltb_ℤ}

-- The counter; the requests that are sent; and those that are refused and have not yet left.
pub record Limiter : Type 0 where
  pub active_requests : ℤ
  pub inside : ℕ
  pub refused : ℕ

abbrev pub start : Limiter
start = record { active_requests = pos 0; inside = 0; refused = 0 }

abbrev pub is_over : ℤ → ℤ → Bool
is_over max_concurrency attempted = ltb_ℤ (pos 0) max_concurrency && ltb_ℤ max_concurrency attempted

unfoldable pub enter : ℤ → Limiter → Limiter
enter max_concurrency l =
    let attempted = l.active_requests +ℤ pos 1 in
    if is_over max_concurrency attempted
    then record l { active_requests = attempted; refused = l.refused + 1 }
    else record l { active_requests = attempted; inside = l.inside + 1 }

abbrev pub leave_sent : Limiter → Limiter
leave_sent l = record l { active_requests = l.active_requests -ℤ pos 1; inside = l.inside - 1 }

abbrev pub leave_refused : Limiter → Limiter
leave_refused l = record l { active_requests = l.active_requests -ℤ pos 1; refused = l.refused - 1 }

pub data Reach (max_concurrency : ℤ) : Limiter → Type 0 where
  begins : Reach max_concurrency start
  enters :
      {l m : Limiter}
      → Reach max_concurrency l
      → m ≡ enter max_concurrency l
      → Reach max_concurrency m
  leaves_sent :
      {l m : Limiter}
      → Reach max_concurrency l
      → 0 < l.inside
      → m ≡ leave_sent l
      → Reach max_concurrency m
  leaves_refused :
      {l m : Limiter}
      → Reach max_concurrency l
      → 0 < l.refused
      → m ≡ leave_refused l
      → Reach max_concurrency m

record IsBounded (most : ℕ) (l : Limiter) : Type 0 where
  bounded : l.inside ≤ most
  counted : l.active_requests ≡ pos (l.inside + l.refused)

+ℤ-one : (n : ℕ) → pos n +ℤ pos 1 ≡ pos (n + 1)
unfolding ◌+ℤ◌
+ℤ-one n = ground arith

-ℤ-one : (n : ℕ) → 0 < n → pos n -ℤ pos 1 ≡ pos (n - 1)
unfolding ◌-ℤ◌
-ℤ-one n h = ground arith

attempted_lem :
    (l : Limiter)
    → l.active_requests ≡ pos (l.inside + l.refused)
    → l.active_requests +ℤ pos 1 ≡ pos (l.inside + l.refused + 1)
attempted_lem l h = ap (λ z. z +ℤ pos 1) h ∙ +ℤ-one (l.inside + l.refused)

within_limit :
    (most n : ℕ) (a : ℤ) → 0 < most → a ≡ pos (n + 1) → is_over (pos most) a ≡ false → n + 1 ≤ most
within_limit most n a h q e =
    let e' : is_over (pos most) (pos (n + 1)) ≡ false =
      subst (λ z. is_over (pos most) z ≡ false) q e in
    ground arith

enter-IsBounded :
    (most : ℕ) (l : Limiter) → 0 < most → IsBounded most l → IsBounded most (enter (pos most) l)
unfolding enter
enter-IsBounded most l h b =
    let q = attempted_lem l b.counted in
    if_elim (IsBounded most) (is_over (pos most) (l.active_requests +ℤ pos 1)) _ _
      (λ e. record { bounded = b.bounded; counted = q ∙ ap pos (omega arith) })
      (λ e. record {
        bounded = omega (arith, within_limit most (l.inside + l.refused) _ h q e);
        counted = q ∙ ap pos (omega arith);
      })

less_one : (a : ℤ) (n k : ℕ) → a ≡ pos n → 0 < n → n - 1 ≡ k → a -ℤ pos 1 ≡ pos k
less_one a n k h p e = ap (λ z. z -ℤ pos 1) h ∙ -ℤ-one n p ∙ ap pos e

Reach-IsBounded : (most : ℕ) {l : Limiter} → 0 < most → Reach (pos most) l → IsBounded most l
Reach-IsBounded most h begins = record { bounded = omega arith; counted = refl }
Reach-IsBounded most h (enters {l} r eq) =
    subst (IsBounded most) (sym eq) (enter-IsBounded most l h (Reach-IsBounded most h r))
Reach-IsBounded most h (leaves_sent {l} r some_ eq) =
    let b = Reach-IsBounded most h r in
    subst (IsBounded most) (sym eq) (record {
      bounded = omega (arith, b.bounded);
      counted =
          less_one l.active_requests (l.inside + l.refused) (l.inside - 1 + l.refused) b.counted
            (omega arith) (omega arith);
    })
Reach-IsBounded most h (leaves_refused {l} r some_ eq) =
    let b = Reach-IsBounded most h r in
    subst (IsBounded most) (sym eq) (record {
      bounded = b.bounded;
      counted =
          less_one l.active_requests (l.inside + l.refused) (l.inside + (l.refused - 1)) b.counted
            (omega arith) (omega arith);
    })

enter_inside :
    (most n : ℕ) (l : Limiter)
    → 0 < most
    → n ≡ l.inside + l.refused
    → l.active_requests +ℤ pos 1 ≡ pos (n + 1)
    → (enter (pos most) l).inside ≡ (if ltb n most then l.inside + 1 else l.inside)
unfolding enter
enter_inside most n l h e q = rw q (ground arith)

-- With a limit that is positive, however requests enter and leave in time: never more than the limit are sent at once,
-- the counter is the number of those sent and of those refused that have not left, and the next
-- request is sent exactly if that number is below the limit.
pub max_concurrency_lem :
    (most : ℕ) {l : Limiter}
    → 0 < most
    → Reach (pos most) l
    → (l.inside ≤ most)
      × (l.active_requests ≡ pos (l.inside + l.refused))
      × ((enter (pos most) l).inside
          ≡ (if ltb (l.inside + l.refused) most then l.inside + 1 else l.inside))
max_concurrency_lem most {l} h r =
    let b = Reach-IsBounded most h r in
    (
      b.bounded,
      b.counted,
      enter_inside most (l.inside + l.refused) l h refl (attempted_lem l b.counted),
    )
