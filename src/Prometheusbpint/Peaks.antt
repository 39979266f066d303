-- ===== src/Prometheusbpint/Peaks.antt =====
-- The highest value over a list of calls (internal/prometheusbpint/high_watermark.go).
use baseplate_go.Common.{◌-◌, ◌^◌, ◌≡◌, ◌∙◌, refl, ◌⊎◌, inl, inr, List, [], ◌∷◌, arith, All}
use baseplate_go.Common.Int.{ℤ, pos, negsuc, ◌+ℤ◌, ◌-ℤ◌, ◌≤ℤ◌, ◌<ℤ◌, -ℤ_parts}
use baseplate_go.Std.Int64.{wrap_64, wrap_64_id, Fits}
use baseplate_go.Prometheusbpint.{
  HighWatermarkValue, raise, inc, dec, set, Call, call_inc, call_dec, call_set, step, run,
}

-- The values of the gauge after each of the calls.
abbrev pub values : HighWatermarkValue → List Call → List ℤ
values hwv [] = []
values hwv (c ∷ cs) = (step hwv c).curr ∷ values (step hwv c) cs

-- What is set is an int64, and no call of Dec goes below the smallest one.
abbrev pub NoUnderflow : HighWatermarkValue → List Call → Type 0
NoUnderflow hwv [] = Unit
NoUnderflow hwv (call_inc ∷ cs) = NoUnderflow (inc hwv) cs
NoUnderflow hwv (call_dec ∷ cs) = (negsuc (2 ^ 63 - 1) <ℤ hwv.curr) × NoUnderflow (dec hwv) cs
NoUnderflow hwv (call_set v ∷ cs) = Fits v × NoUnderflow (set hwv v) cs

abbrev pub Occurs : ℤ → List ℤ → Type 0
Occurs v [] = ⊥
Occurs v (w ∷ ws) = (v ≡ w) ⊎ Occurs v ws

pub record Valid (hwv : HighWatermarkValue) : Type 0 where
  pub fits : Fits hwv.curr
  pub below : hwv.curr ≤ℤ hwv.max

wrap_64-Fits : (z : ℤ) → Fits (wrap_64 z)
unfolding wrap_64
wrap_64-Fits (pos n) = ground arith
wrap_64-Fits (negsuc n) = ground arith

raise-Valid : (hwv : HighWatermarkValue) (v : ℤ) → Fits v → Valid (raise hwv v)
raise-Valid hwv v f = record { fits = f; below = ground arith }

dec-Valid :
    (hwv : HighWatermarkValue) → negsuc (2 ^ 63 - 1) <ℤ hwv.curr → Valid hwv → Valid (dec hwv)
dec-Valid hwv l v =
    let fits : Fits (hwv.curr -ℤ pos 1) = (
      omega (arith, l, -ℤ_parts hwv.curr (pos 1)),
      omega (arith, v.fits.1, -ℤ_parts hwv.curr (pos 1)),
    ) in
    let same = wrap_64_id (hwv.curr -ℤ pos 1) fits in
    record {
      fits = wrap_64-Fits (hwv.curr -ℤ pos 1);
      below = rw same (omega (arith, v.below, -ℤ_parts hwv.curr (pos 1)));
    }

-- What one call does to the maximum.
Grows : HighWatermarkValue → HighWatermarkValue → Type 0
Grows h k = (h.max ≤ℤ k.max) × ((k.max ≡ h.max) ⊎ (k.max ≡ k.curr))

abbrev Peak : HighWatermarkValue → List ℤ → HighWatermarkValue → Type 0
Peak h vs k = All (λ v. v ≤ℤ k.max) vs × (h.max ≤ℤ k.max) × ((k.max ≡ h.max) ⊎ Occurs k.max vs)

raise-Grows : (hwv : HighWatermarkValue) (v : ℤ) → Grows hwv (raise hwv v)
unfolding Grows
raise-Grows hwv v = ground arith

dec-Grows : (hwv : HighWatermarkValue) → Grows hwv (dec hwv)
unfolding Grows
dec-Grows hwv = (omega arith, inl refl)

then-Peak :
    (h h' k : HighWatermarkValue) (vs : List ℤ)
    → Valid h'
    → Grows h h'
    → Peak h' vs k
    → Peak h (h'.curr ∷ vs) k
unfolding Grows
then-Peak h h' k vs v (g, o) (a, b, c) =
    ((omega (arith, v.below, b), a), omega (arith, g, b), found c)
  where
    started :
        (h'.max ≡ h.max) ⊎ (h'.max ≡ h'.curr)
        → k.max ≡ h'.max
        → (k.max ≡ h.max) ⊎ Occurs k.max (h'.curr ∷ vs)
    started (inl e) f = inl (f ∙ e)
    started (inr e) f = inr (inl (f ∙ e))

    found : (k.max ≡ h'.max) ⊎ Occurs k.max vs → (k.max ≡ h.max) ⊎ Occurs k.max (h'.curr ∷ vs)
    found (inl f) = started o f
    found (inr m) = inr (inr m)

-- Over any list of calls in which no Dec underflows, the maximum is the highest value so far: no value
-- after a call exceeds it, it never falls, and it is the old maximum or one of the values.
pub run-Peak :
    (hwv : HighWatermarkValue) (calls : List Call)
    → Valid hwv
    → NoUnderflow hwv calls
    → All (λ v. v ≤ℤ (run hwv calls).max) (values hwv calls)
      × (hwv.max ≤ℤ (run hwv calls).max)
      × (((run hwv calls).max ≡ hwv.max) ⊎ Occurs (run hwv calls).max (values hwv calls))
unfolding run
run-Peak hwv [] v n = (tt, omega arith, inl refl)
run-Peak hwv (call_inc ∷ cs) v n =
    let f = wrap_64-Fits (hwv.curr +ℤ pos 1) in
    let w = raise-Valid hwv (wrap_64 (hwv.curr +ℤ pos 1)) f in
    then-Peak hwv (inc hwv) (run (inc hwv) cs) (values (inc hwv) cs) w (raise-Grows hwv _)
      (run-Peak (inc hwv) cs w n)
run-Peak hwv (call_dec ∷ cs) v (l, n) =
    let w = dec-Valid hwv l v in
    then-Peak hwv (dec hwv) (run (dec hwv) cs) (values (dec hwv) cs) w (dec-Grows hwv)
      (run-Peak (dec hwv) cs w n)
run-Peak hwv (call_set x ∷ cs) v (f, n) =
    let w = raise-Valid hwv x f in
    then-Peak hwv (set hwv x) (run (set hwv x) cs) (values (set hwv x) cs) w (raise-Grows hwv x)
      (run-Peak (set hwv x) cs w n)
