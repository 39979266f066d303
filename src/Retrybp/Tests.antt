-- ===== src/Retrybp/Tests.antt =====
-- Small runs of the backoff and of the filters, and the theorems on them (retrybp/delay.go,
-- retrybp/filters.go), and of Do (retrybp/retry.go).
use native.Mathlib.Omega.{pow_step}
use baseplate_go.Common.{
  ℕ, zero, suc, ◌+◌, ◌*◌, ◌/◌, ◌^◌, ◌≤◌, ◌<◌, ◌≡◌, refl, true, false, [], ◌∷◌, none, some, ltb,
  arith, length, Bool-cases, inl, inr, ap, map,
}
use baseplate_go.Common.Int.{pos, ◌-ℤ◌}
use baseplate_go.Retrybp.Delay.{CappedExponentialBackoffArgs, base_delay, max_exponent_of, shifted}
use baseplate_go.Retrybp.Backoff.{IsFloorLog2, exponent, shifted_exact}
use baseplate_go.Retrybp.Retry.{do_retry}
use baseplate_go.Errorsbp.Batch.{leaf, joined, error, no_errors}
use baseplate_go.Retrybp.Filters.{Facts, filters}
use baseplate_go.Retrybp.Decisions.{
  context, network, retryable, filter_of, first_decision, filters-first_decision,
}

-- The floor of the logarithm, with fuel.
log2 : ℕ → ℕ → ℕ
log2 zero b = 0
log2 (suc f) b = elim (ltb b 2) [ true ↦ 0 | false ↦ suc (log2 f (b / 2)) ]

log2-above : (f b : ℕ) → b < 2 ^ suc f → b < 2 ^ suc (log2 f b)
unfolding log2
log2-above zero b h = h
log2-above (suc f) b h = elim (Bool-cases (ltb b 2)) [
  | inl e ↦ rw (e, log2) (ground arith)
  | inr e ↦
      rw (e, log2)
        (omega (
          arith,
          log2-above f (b / 2) (omega (arith, pow_step 2 (suc f))),
          pow_step 2 (suc (log2 f (b / 2))),
        ))
]

log2-small : (f b : ℕ) → log2 f b ≤ f
unfolding log2
log2-small zero b = omega arith
log2-small (suc f) b = elim (Bool-cases (ltb b 2)) [
  | inl e ↦ rw (e, log2) (ground arith)
  | inr e ↦ rw (e, log2) (omega (arith, log2-small f (b / 2)))
]

add_one : (n : ℕ) → suc n ≡ n + 1
add_one n = omega arith

log2-IsFloorLog2 : IsFloorLog2 (log2 62)
log2-IsFloorLog2 = record {
  above =
      λ b h. omega (arith, log2-above 62 b (omega arith), ap (λ j. 2 ^ j) (add_one (log2 62 b)));
  small = λ b h. log2-small 62 b;
}

abbrev args : CappedExponentialBackoffArgs
args = record {
  initial_delay = pos 1_000;
  max_delay = pos 60_000;
  max_exponent = pos 0;
  max_jitter = pos 10;
  ignore_retry_after_error = false;
}

args-base_delay : base_delay (pos 100) (log2 62) args ≡ 1_000
unfolding base_delay
args-base_delay = refl

third : shifted (pos 100) (log2 62) args 3 ≡ 8_000
unfolding base_delay max_exponent_of log2 ◌-ℤ◌
third = refl

shifted_exact_case :
    (shifted (pos 100) (log2 62) args 3
      ≡ base_delay (pos 100) (log2 62) args
        * 2 ^ exponent (pos 100) (log2 62) log2-IsFloorLog2 args 3)
    × (shifted (pos 100) (log2 62) args 3 < 2 ^ 63)
shifted_exact_case =
    shifted_exact (pos 100) (log2 62) log2-IsFloorLog2 args 3 (omega (arith, args-base_delay))

-- A network error that is not a deadline.
abbrev refused : Facts
refused = record {
  is_deadline_exceeded = false;
  is_canceled = false;
  as_net_error = true;
  retryable = none;
  thrift_retryable = none;
  is_recoverable = true;
  is_open_state = false;
  is_too_many_requests = false;
}

filters-first_decision_case :
    filters (map filter_of (retryable ∷ context ∷ network ∷ [])) refused
    ≡ first_decision (retryable ∷ context ∷ network ∷ []) refused
filters-first_decision_case = filters-first_decision (retryable ∷ context ∷ network ∷ []) refused

refused_retries : filters (map filter_of (retryable ∷ context ∷ network ∷ [])) refused ≡ true
unfolding filters
refused_retries = refl

-- The options on the context come last; the errors of a batch are joined without the nil ones.
retried :
    do_retry
      (λ e. some (some (leaf 2) ∷ none ∷ []))
      {O = ℕ}
      (λ os. some (leaf (length os)))
      0
      (1 ∷ 2 ∷ [])
      (some (3 ∷ []))
    ≡ some (joined (error (leaf 2) no_errors))
retried = refl

not_retried :
    do_retry (λ e. none) {O = ℕ} (λ os. some (leaf (length os))) 0 (1 ∷ []) none ≡ some (leaf 2)
not_retried = refl
