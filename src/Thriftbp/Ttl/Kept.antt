-- ===== src/Thriftbp/Ttl/Kept.antt =====
-- What becomes of the transports of a ttlClient (thriftbp/ttl_client.go).
use baseplate_go.Common.{
  ℕ, ◌+◌, ◌≤◌, ◌<◌, ◌≡◌, refl, sym, subst, ap, ==_iff, Bool-cases, inl, inr, Bool, if_elim, true,
  false, not, List, [], ◌∷◌, none, some, count, ◌==◌, if◌then◌else◌, arith,
}
use baseplate_go.Common.Int.{ℤ}
use baseplate_go.Std.Float64.{Float64}
use baseplate_go.Std.Instant.{Instant}
use baseplate_go.Randbp.{jitter_duration}
use baseplate_go.Thriftbp.Ttl.{
  TtlClient, renew, is_expired, is_open, generate, remove_one, replace, put_in, new_ttl_client,
  fresh, age_of, is_negative, Event, calls, asks, closes, fires, puts_in, handle, Runs, here, next,
}

-- How often the transport stands with the client, with a refresh, or among those closed.
abbrev pub places : ℕ → TtlClient → ℕ
places n c = (if c.transport == n then 1 else 0) + count n c.refreshed + count n c.shut

record IsSound (c : TtlClient) : Type 0 where
  covered : (n : ℕ) → n < c.made → 1 ≤ places n c
  same : c.client ≡ c.transport
  stopped : c.closed ≡ true → c.timer ≡ none
  shut_too : c.closed ≡ true → 1 ≤ count c.transport c.shut

count-remove_one :
    (n t : ℕ) (us : List ℕ) → count n us ≤ count n (remove_one t us) + (if t == n then 1 else 0)
count-remove_one n t [] = omega arith
count-remove_one n t (u ∷ us) = ground (arith, count-remove_one n t us)

generate-IsSound :
    (fine : Bool) (c : TtlClient) → IsSound c → IsSound (generate fine (record c { timer = none }))
generate-IsSound true c s = record {
  covered = λ n h. ground (arith, s.covered n);
  same = s.same;
  stopped = λ h. refl;
  shut_too = s.shut_too;
}
generate-IsSound false c s = record {
  covered = s.covered;
  same = s.same;
  stopped = λ h. refl;
  shut_too = s.shut_too;
}

renew-made : (now : Instant) (c : TtlClient) → (renew now c).made ≡ c.made
renew-made now c = ground arith

renew-closed : (now : Instant) (c : TtlClient) → (renew now c).closed ≡ c.closed
renew-closed now c = ground arith

replace-IsSound :
    (now : Instant) (t : ℕ) (c : TtlClient)
    → c.closed ≡ false
    → IsSound c
    → IsSound (replace now t c)
replace-IsSound now t c open_ s = record {
  covered = λ n h. ground (arith, s.covered n, count-remove_one n t c.refreshed, renew-made now c);
  same = refl;
  stopped = λ h. absurd (cc (renew-closed now c));
  shut_too = λ h. absurd (cc (renew-closed now c));
}

late-IsSound :
    (t : ℕ) (c : TtlClient)
    → c.closed ≡ true
    → IsSound c
    → IsSound (record c { shut = t ∷ c.shut; refreshed = remove_one t c.refreshed })
late-IsSound t c closed_ s = record {
  covered = λ n h. ground (arith, s.covered n, count-remove_one n t c.refreshed);
  same = s.same;
  stopped = s.stopped;
  shut_too = λ h. omega (arith, s.shut_too h);
}

put_in-IsSound : (now : Instant) (t : ℕ) (c : TtlClient) → IsSound c → IsSound (put_in now t c)
put_in-IsSound now t c s =
    if_elim IsSound c.closed (record c { shut = t ∷ c.shut; refreshed = remove_one t c.refreshed })
      (replace now t c) (λ e. late-IsSound t c e s) (λ e. replace-IsSound now t c e s)

-- One more call of Close on the transport.
shut_again-IsSound :
    (c : TtlClient) → IsSound c → IsSound (record c { shut = c.transport ∷ c.shut })
shut_again-IsSound c s = record {
  covered = λ n h. omega (arith, s.covered n h);
  same = s.same;
  stopped = s.stopped;
  shut_too = λ h. omega (arith, s.shut_too h);
}

is_open-IsSound :
    (now : Instant) (alive : Bool) (c : TtlClient) → IsSound c → IsSound (is_open now alive c).0
is_open-IsSound now alive c s =
    if_elim {A = TtlClient × Bool} (λ r. IsSound r.0) (not alive) (c, false) _ (λ e. s)
      (λ e.
        if_elim {A = TtlClient × Bool} (λ r. IsSound r.0) (is_expired now c)
          (record c { shut = c.transport ∷ c.shut }, false) (c, true) (λ f. shut_again-IsSound c s)
          (λ f. s))

handle-IsSound : (e : Event) (c : TtlClient) → IsSound c → IsSound (handle e c)
handle-IsSound (calls read written) c s = record {
  covered = s.covered;
  same = s.same;
  stopped = s.stopped;
  shut_too = s.shut_too;
}
handle-IsSound (asks now alive) c s = is_open-IsSound now alive c s
handle-IsSound closes c s = record {
  covered = λ n h. omega (arith, s.covered n h);
  same = s.same;
  stopped = λ h. refl;
  shut_too = λ h. ground arith;
}
handle-IsSound (fires now fine) c s = generate-IsSound fine c s
handle-IsSound (puts_in now t) c s = put_in-IsSound now t c s

renew-IsSound :
    (now : Instant) (c : TtlClient) → c.closed ≡ false → IsSound c → IsSound (renew now c)
renew-IsSound now c open_ s =
    if_elim IsSound (is_negative c.ttl) c _ (λ e. s)
      (λ e. record {
        covered = s.covered;
        same = s.same;
        stopped = λ h. absurd (cc h);
        shut_too = λ h. absurd (cc h);
      })

fresh-IsSound : (duration : ℤ) → IsSound (fresh duration)
fresh-IsSound duration = record {
  covered = λ n h. ground arith;
  same = refl;
  stopped = λ h. refl;
  shut_too = λ h. absurd (cc h);
}

new-IsSound :
    (fine : Bool) (now : Instant) (drawn : Float64) (ttl : ℤ) (jitter : Float64) {c : TtlClient}
    → new_ttl_client fine now drawn ttl jitter ≡ some c
    → IsSound c
new-IsSound true now drawn ttl jitter h =
    let duration = jitter_duration drawn (age_of ttl) jitter in
    subst IsSound (cc h) (renew-IsSound now (fresh duration) refl (fresh-IsSound duration))
new-IsSound false now drawn ttl jitter h = absurd (cc h)

Runs-IsSound : {c d : TtlClient} {es : List Event} → IsSound c → Runs c es d → IsSound d
Runs-IsSound s here = s
Runs-IsSound s (next {d} e r possible eq) =
    subst IsSound (sym eq) (handle-IsSound e d (Runs-IsSound s r))

closed_shut :
    (c : TtlClient) (n : ℕ)
    → IsSound c
    → c.closed ≡ true
    → c.refreshed ≡ []
    → n < c.made
    → 1 ≤ count n c.shut
closed_shut c n s closed_ none_left h =
    let covered = s.covered n h in
    let shut_too = s.shut_too closed_ in
    let gone : count n c.refreshed ≡ 0 = ap (count n) none_left in
    elim (Bool-cases (c.transport == n)) [
      | inl e ↦ subst (λ k. 1 ≤ count k c.shut) ((==_iff c.transport n).0 e) shut_too
      | inr e ↦ ground arith
    ]

-- In every history of a ttlClient that newTTLClient made, the client is that of the transport; once Close has
-- been called no timer is set, and as soon as no refresh is under way every transport that the generator ever
-- made has been closed.
pub transports_closed :
    (fine : Bool) (now : Instant) (drawn : Float64) (ttl : ℤ) (jitter : Float64) {c d : TtlClient}
    {es : List Event} (n : ℕ)
    → new_ttl_client fine now drawn ttl jitter ≡ some c
    → Runs c es d
    → d.closed ≡ true
    → d.refreshed ≡ []
    → n < d.made
    → (d.client ≡ d.transport) × (d.timer ≡ none) × (1 ≤ count n d.shut)
transports_closed fine now drawn ttl jitter {d} n made r closed_ none_left h =
    let s = Runs-IsSound (new-IsSound fine now drawn ttl jitter made) r in
    (s.same, s.stopped closed_, closed_shut d n s closed_ none_left h)
