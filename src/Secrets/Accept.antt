-- ===== src/Secrets/Accept.antt =====
-- Acceptance of documents by secretsValidate of secrets/secrets.go.
use baseplate_go.Common.{◌≡◌, refl, ◌↔◌, List, [], ◌∷◌, ◌++◌, String, Map, arith, eq_iff, All}
use baseplate_go.Secrets.{
  simple_type, versioned_type, credential_type, Result, ok, err, ◌>>=◌, GenericSecret, Document,
  Secrets,
}
use baseplate_go.Secrets.Load.{
  add_secret, add_secrets, secrets_validate, validate, document_errors, entry_errors, join_errors,
  put_simple, put_versioned, put_credential,
}
use baseplate_go.Secrets.Slots.{
  Slots, slots_of, adds_simple, adds_versioned, adds_credential, add_secret-Adds, decoded_simple,
  decoded_versioned, decoded_credential, slots_of-Decoded,
}

-- A secret fills only the fields of its type.
pub record IsPure (g : GenericSecret) : Type 0 where
  pub simple :
      g.type ≡ simple_type
      → (g.current ≡ []) × (g.previous ≡ []) × (g.next ≡ []) × (g.username ≡ []) × (g.password ≡ [])
  pub versioned : g.type ≡ versioned_type → (g.value ≡ []) × (g.username ≡ []) × (g.password ≡ [])
  pub credential :
      g.type ≡ credential_type
      → (g.value ≡ []) × (g.current ≡ []) × (g.previous ≡ []) × (g.next ≡ [])

entry_errors-nil : (k : String) (g : GenericSecret) → entry_errors k g ≡ [] → IsPure g
unfolding entry_errors
entry_errors-nil k g h =
    ground (
      arith,
      eq_iff g.type simple_type,
      eq_iff g.type versioned_type,
      eq_iff g.type credential_type,
    )

nil-entry_errors : (k : String) (g : GenericSecret) → IsPure g → entry_errors k g ≡ []
unfolding entry_errors
nil-entry_errors k g h =
    ground (
      arith,
      eq_iff g.type simple_type,
      eq_iff g.type versioned_type,
      eq_iff g.type credential_type,
    )

append-nil_left : (xs ys : List (String × String)) → xs ++ ys ≡ [] → (xs ≡ []) × (ys ≡ [])
append-nil_left [] ys h = (refl, h)
append-nil_left (x ∷ xs) ys h = cc

-- Its values decode, and its type is known.
abbrev pub Decodes : GenericSecret → Type 0
Decodes g = (σ : Slots) × (slots_of g ≡ ok σ)

abbrev pub Acceptable : String × GenericSecret → Type 0
Acceptable (k, g) = IsPure g × Decodes g

validate-IsPure :
    (m : Map GenericSecret)
    → document_errors m ≡ []
    → All (λ ((k, g) : String × GenericSecret). IsPure g) m
unfolding document_errors
validate-IsPure [] h = tt
validate-IsPure ((k, g) ∷ m) h =
    let (e, f) = append-nil_left (entry_errors k g) (document_errors m) h in
    (entry_errors-nil k g e, validate-IsPure m f)

IsPure-validate : (m : Map GenericSecret) → All Acceptable m → document_errors m ≡ []
unfolding document_errors
IsPure-validate [] h = refl
IsPure-validate ((k, g) ∷ m) ((h, d), hs) = rw (nil-entry_errors k g h, IsPure-validate m hs)

-- A round of secretsValidate succeeds exactly if the secret decodes.
add_secret-Decodes :
    (k : String) (g : GenericSecret) (s t : Secrets) → add_secret k g s ≡ ok t → Decodes g
add_secret-Decodes k g s t h = elim (add_secret-Adds k g s t h) [
  | adds_simple x e f ↦ (_, e)
  | adds_versioned x e f ↦ (_, e)
  | adds_credential x e f ↦ (_, e)
]

Decodes-add_secret :
    (k : String) (g : GenericSecret) (s : Secrets)
    → Decodes g
    → (t : Secrets) × (add_secret k g s ≡ ok t)
unfolding add_secret
Decodes-add_secret k g s (σ, h) = elim (slots_of-Decoded g σ h) [
  | decoded_simple x a e f ↦ (put_simple k x s, rw (a, e))
  | decoded_versioned x a b e f ↦ (put_versioned k x s, rw (a, b, e))
  | decoded_credential x a b c e f ↦ (put_credential k x s, rw (a, b, c, e))
]

add_secrets-Decodes :
    (m : Map GenericSecret) (s t : Secrets)
    → add_secrets m s ≡ ok t
    → All (λ ((k, g) : String × GenericSecret). IsPure g) m
    → All Acceptable m
unfolding add_secrets
add_secrets-Decodes [] s t h p = tt
add_secrets-Decodes ((k, g) ∷ m) s t h (p, ps) =
    go (λ u. add_secrets-Decodes m u t) (add_secret k g s) refl h
  where
    go :
        ((u : Secrets)
          → add_secrets m u ≡ ok t
          → All (λ ((k, g) : String × GenericSecret). IsPure g) m
          → All Acceptable m)
        → (r : Result Secrets) → add_secret k g s ≡ r
        → (r >>= λ s'. add_secrets m s') ≡ ok t
        → All Acceptable ((k, g) ∷ m)
    go ih (err x) e f = absurd (cc f)
    go ih (ok u) e f = ((p, add_secret-Decodes k g s u e), ih u f ps)

Decodes-add_secrets :
    (m : Map GenericSecret) (s : Secrets)
    → All Acceptable m
    → (t : Secrets) × (add_secrets m s ≡ ok t)
unfolding add_secrets
Decodes-add_secrets [] s h = (s, refl)
Decodes-add_secrets ((k, g) ∷ m) s ((p, d), hs) =
    let (u, e) = Decodes-add_secret k g s d in
    let (t, f) = Decodes-add_secrets m u hs in (t, rw e f)

-- A document is accepted exactly if each of its secrets fills only the fields of its type, has a
-- known type, and has values that decode; one bad secret refuses the whole document.
pub secrets_validate_iff :
    (d : Document) → ((s : Secrets) × (secrets_validate d ≡ ok s)) ↔ All Acceptable d.secrets
unfolding secrets_validate validate
secrets_validate_iff d = (λ (s, h). go s (document_errors d.secrets) refl h, back)
  where
    fresh : Secrets
    fresh = record {
      simple_secrets = [];
      versioned_secrets = [];
      credential_secrets = [];
      vault = d.vault;
    }

    go :
        (s : Secrets) (es : List (String × String))
        → document_errors d.secrets ≡ es
        → (join_errors es >>= λ _. add_secrets d.secrets fresh) ≡ ok s
        → All Acceptable d.secrets
    go s [] e h = add_secrets-Decodes d.secrets fresh s h (validate-IsPure d.secrets e)
    go s (x ∷ es) e h = absurd (cc h)

    back : All Acceptable d.secrets → (s : Secrets) × (secrets_validate d ≡ ok s)
    back h =
        let (t, e) = Decodes-add_secrets d.secrets fresh h in
        (t, rw (IsPure-validate d.secrets h) e)
