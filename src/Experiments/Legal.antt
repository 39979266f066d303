-- ===== src/Experiments/Legal.antt =====
-- The results of SimpleExperiment.Variant (experiments/experiments.go).
use baseplate_go.Common.{
  ◌≡◌, ◌≢◌, refl, subst, ◌⊎◌, inl, inr, Bool, true, false, List, [], ◌∷◌, Option, some, String,
  Bytes, if◌then◌else◌, arith, Bool-cases, Option-cases, All, bytes_eq, bytes_eq_iff, to_lower,
  to_lower_idem, sym, ap, ◌∙◌,
}
use baseplate_go.Common.Int.{pos}
use baseplate_go.Std.Instant.{Instant}
use baseplate_go.Std.Float64.{Float64}
use baseplate_go.Experiments.Variants as Variants
use baseplate_go.Experiments.Variants.{
  Variant, VariantSet, made, slice, from_experiment_type, choose_variant,
}
use baseplate_go.Experiments.Choices.{Named, Chooses, Sound, from_experiment_type-Sound}
use baseplate_go.Experiments.Targeting as Targeting
use baseplate_go.Experiments.Targeting.{
  Text, Value, null, number, Arg, nil, text_arg, Args, argument, Node, comparison_node, Comparer,
  Parsed, parsed, panic,
}
use baseplate_go.Experiments.Evaluate.{evaluate}
use baseplate_go.Experiments.Evaluation.{WellTyped, evaluate-WellTyped}
use baseplate_go.Experiments.Simple.{
  ExperimentConfig, SimpleExperiment, Built, built, build, assemble, targeting_of, parse_overrides,
  with_variants, new_simple_experiment, num_buckets, is_enabled, lower_onto, lower_arguments,
  is_missing, Choice, chosen, missing_bucket_key, not_a_string, crash, calculate_bucket, bucketed,
  targeted, override_or, overrides_or, variant,
}

-- A name of an override.
abbrev pub Overrides : String → List (String × Node) → Type 0
Overrides name [] = ⊥
Overrides name ((v, n) ∷ rest) = (name ≡ v) ⊎ Overrides name rest

abbrev pub OverridesAny : String → List (List (String × Node)) → Type 0
OverridesAny name [] = ⊥
OverridesAny name (o ∷ os) = Overrides name o ⊎ OverridesAny name os

-- No panic, and a variant of the configuration, one of the overrides, or none.
abbrev pub Legal : List Variant → List (List (String × Node)) → Choice → Type 0
Legal vs os (chosen name) = (name ≡ "") ⊎ Named name vs ⊎ OverridesAny name os
Legal vs os (missing_bucket_key e k) = Unit
Legal vs os not_a_string = Unit
Legal vs os crash = ⊥

abbrev BuiltSound : List Variant → Built → Type 0
BuiltSound vs (built e) = Chooses e.variant_set vs
BuiltSound vs _ = Unit

build-BuiltSound :
    (c : ExperimentConfig) (s : VariantSet) (vs : List Variant) (n : Parsed Node)
    (os : Parsed (List (List (String × Node))))
    → Chooses s vs
    → BuiltSound vs (build (assemble c s) n os)
build-BuiltSound c s vs (parsed n) (parsed os) h = h
build-BuiltSound c s vs (parsed n) (Targeting.refused e) h = tt
build-BuiltSound c s vs (parsed n) panic h = tt
build-BuiltSound c s vs (Targeting.refused e) os h = tt
build-BuiltSound c s vs panic os h = tt

with_variants-BuiltSound :
    (c : ExperimentConfig) (m : Variants.Made)
    → Sound (slice c.variants) m
    → BuiltSound (slice c.variants) (with_variants c m)
with_variants-BuiltSound c (Variants.refused e) h = tt
with_variants-BuiltSound c (made s) h =
    build-BuiltSound c s (slice c.variants) (targeting_of c.targeting) (parse_overrides c.overrides)
      h

built-Chooses :
    (c : ExperimentConfig) (e : SimpleExperiment)
    → new_simple_experiment c ≡ built e
    → Chooses e.variant_set (slice c.variants)
unfolding new_simple_experiment
built-Chooses c e h =
    subst (BuiltSound (slice c.variants)) h (
      with_variants-BuiltSound c _ (from_experiment_type-Sound c.type c.variants (pos num_buckets)))

module _ (sha1 : Bytes → Bytes) (show_float : Float64 → Text)
    (parse_float : Text → Option Float64) where
  bucketed-Legal :
      (vs : List Variant) (os : List (List (String × Node))) (e : SimpleExperiment) (a : Arg)
      → Chooses e.variant_set vs
      → Legal vs os (bucketed sha1 show_float parse_float e a)
  bucketed-Legal vs os e (text_arg t) h =
      let (name, f, good) = h (pos (calculate_bucket sha1 show_float parse_float e t)) in
      rw f (elim good [ inl e ↦ inl e | inr n ↦ inr (inl n) ])
  bucketed-Legal vs os e _ h = tt

  targeted-Legal :
      (vs : List Variant) (os : List (List (String × Node))) (e : SimpleExperiment) (args : Args)
      → Chooses e.variant_set vs
      → WellTyped e.targeting
      → Legal vs os (targeted sha1 show_float parse_float e args)
  targeted-Legal vs os e args h w =
      let (b, f) = evaluate-WellTyped show_float parse_float e.targeting args w in
      rw (f, Legal, targeted) (go b)
    where
      go :
          (b : Bool)
          → Legal vs os (
              if b
              then bucketed sha1 show_float parse_float e (argument e.bucket_val args)
              else chosen "")
      go true = bucketed-Legal vs os e (argument e.bucket_val args) h
      go false = inl refl

  override_or-keeps :
      (P : Choice → Type 0) (o : List (String × Node)) (args : Args) (next : Choice)
      → ((name : String) → Overrides name o → P (chosen name))
      → P next
      → All (λ ((v, n) : String × Node). WellTyped n) o
      → P (override_or sha1 show_float parse_float o args next)
  unfolding override_or
  override_or-keeps P [] args next f p w = p
  override_or-keeps P ((v, n) ∷ rest) args next f p (w, ws) =
      let (b, e) = evaluate-WellTyped show_float parse_float n args w in
      let later = override_or-keeps P rest args next (λ name m. f name (inr m)) p ws in
      rw (e, override_or) (go b later)
    where
      go :
          (b : Bool)
          → P (override_or sha1 show_float parse_float rest args next)
          → P (if b then chosen v else override_or sha1 show_float parse_float rest args next)
      go true q = f v (inl refl)
      go false q = q

  overrides_or-keeps :
      (P : Choice → Type 0) (os : List (List (String × Node))) (args : Args) (next : Choice)
      → ((name : String) → OverridesAny name os → P (chosen name))
      → P next
      → All (All (λ ((v, n) : String × Node). WellTyped n)) os
      → P (overrides_or sha1 show_float parse_float os args next)
  unfolding overrides_or
  overrides_or-keeps P [] args next f p w = p
  overrides_or-keeps P (o ∷ os) args next f p (w, ws) =
      override_or-keeps P o args (overrides_or sha1 show_float parse_float os args next)
        (λ name m. f name (inl m))
        (overrides_or-keeps P os args next (λ name m. f name (inr m)) p ws) w

  -- Variant of an experiment that NewSimpleExperiment made, with well-typed targeting and overrides, never
  -- panics, whatever the arguments and the time are; if it returns no error, it returns no variant, one
  -- of the configured variants, or the name of an override.
  pub variant-Legal :
      (c : ExperimentConfig) (e : SimpleExperiment) (args : Args) (now : Instant)
      → new_simple_experiment c ≡ built e
      → WellTyped e.targeting
      → All (All (λ ((v, n) : String × Node). WellTyped n)) e.overrides
      → Legal (slice c.variants) e.overrides (variant sha1 show_float parse_float e args now)
  unfolding variant
  variant-Legal c e args now h w ws =
      go (is_enabled e now) (is_missing (argument e.bucket_val (lower_arguments args)))
    where
      decided : Choice
      decided =
          overrides_or sha1 show_float parse_float e.overrides (lower_arguments args)
            (targeted sha1 show_float parse_float e (lower_arguments args))

      go :
          (enabled missing : Bool)
          → Legal (slice c.variants) e.overrides (
              if enabled
              then (if missing then missing_bucket_key e.name e.bucket_val else decided)
              else chosen "")
      go false missing = inl refl
      go true true = tt
      go true false =
          overrides_or-keeps (Legal (slice c.variants) e.overrides) e.overrides
            (lower_arguments args) _ (λ name m. inr (inr m))
            (targeted-Legal (slice c.variants) e.overrides e (lower_arguments args)
              (built-Chooses c e h) w)
            ws

lowered-nil :
    (name : Text) (lowered args : Args)
    → name ≢ to_lower name
    → argument name lowered ≡ nil
    → argument name (lower_onto lowered args) ≡ nil
unfolding argument lower_onto
lowered-nil name lowered [] n h = h
lowered-nil name lowered ((k, v) ∷ rest) n h =
    lowered-nil name ((to_lower k, v) ∷ lowered) rest n
      (elim (Bool-cases (bytes_eq (to_lower k) name)) [
        | inl e ↦
            let same : to_lower k ≡ name = (bytes_eq_iff (to_lower k) name).0 e in
            absurd (n (sym same ∙ sym (to_lower_idem k) ∙ ap to_lower same))
        | inr e ↦ rw e h
      ])

module _ (show_float : Float64 → Text) (parse_float : Text → Option Float64) where
  -- A comparison whose field has an upper-case letter is false, or panics, on the arguments that Variant
  -- passes on, for all values that they have.
  pub comparison_upper_never :
      (name : Text) (value : Value) (c : Comparer) (args : Args)
      → name ≢ to_lower name
      → evaluate show_float parse_float (comparison_node name value c) (lower_arguments args)
        ≢ some true
  unfolding evaluate lower_arguments
  comparison_upper_never name null c args n h = cc h
  comparison_upper_never name (number t) c args n h =
      ground
        (arith, lowered-nil name [] args n (unfold argument in refl), Option-cases (parse_float t))
  comparison_upper_never name value c args n h = cc h
