-- ===== src/Secrets/Slots.antt =====
-- What the rounds of secretsValidate (secrets/secrets.go) leave under one key.
use baseplate_go.Common.{
  ◌≡◌, refl, ◌∙◌, ◌≢◌, inl, inr, true, false, [], ◌∷◌, String, str_eq, if◌then◌else◌, Map, lookup,
  Option, none, some, lookup-insert, Distinct, eq_iff, Bool-cases, arith,
}
use baseplate_go.Secrets.{
  simple_type, versioned_type, credential_type, unknown_secret_type, Result, ok, err, ◌>>=◌,
  GenericSecret, Secrets, new_simple_secret, new_versioned_secret, new_credential_secret,
  SimpleSecret, VersionedSecret, CredentialSecret,
}
use baseplate_go.Secrets.Load.{add_secret, add_secrets, put_simple, put_versioned, put_credential}

-- The entry of a key in the three maps.
abbrev pub Slots : Type 0
Slots = Option SimpleSecret × Option VersionedSecret × Option CredentialSecret

abbrev pub slots : String → Secrets → Slots
slots k s = (lookup k s.simple_secrets, lookup k s.versioned_secrets, lookup k s.credential_secrets)

-- The entry that a document's secret makes.
unfoldable pub slots_of : GenericSecret → Result Slots
slots_of g =
    if str_eq g.type simple_type
    then new_simple_secret g >>= (λ x. ok (some x, none, none))
    else if str_eq g.type versioned_type
    then new_versioned_secret g >>= (λ x. ok (none, some x, none))
    else if str_eq g.type credential_type
    then new_credential_secret g >>= (λ x. ok (none, none, some x))
    else err (unknown_secret_type g.type "")

abbrev pub empty_slots : Slots
empty_slots = (none, none, none)

>>=-eq-ok :
    {A B : Type 0} (m : Result A) (f : A → B) {b : B}
    → (m >>= λ a. ok (f a)) ≡ ok b
    → (a : A) × (m ≡ ok a) × (b ≡ f a)
>>=-eq-ok (ok a) f h = (a, refl, cc)
>>=-eq-ok (err e) f h = cc

-- A round that succeeds adds one entry to one map, which is the one of the secret's type.
pub data Adds (k : String) (g : GenericSecret) (s t : Secrets) : Type 0 where
  adds_simple :
      (x : SimpleSecret)
      → slots_of g ≡ ok (some x, none, none)
      → t ≡ put_simple k x s
      → Adds k g s t
  adds_versioned :
      (x : VersionedSecret)
      → slots_of g ≡ ok (none, some x, none)
      → t ≡ put_versioned k x s
      → Adds k g s t
  adds_credential :
      (x : CredentialSecret)
      → slots_of g ≡ ok (none, none, some x)
      → t ≡ put_credential k x s
      → Adds k g s t

pub add_secret-Adds :
    (k : String) (g : GenericSecret) (s t : Secrets) → add_secret k g s ≡ ok t → Adds k g s t
unfolding add_secret slots_of
add_secret-Adds k g s t h = elim (Bool-cases (str_eq g.type simple_type)) [
  | inl a ↦
      let (x, e, f) = >>=-eq-ok (new_simple_secret g) (λ x. put_simple k x s) (rw a at h) in
      adds_simple x (rw (a, e)) f
  | inr a ↦ elim (Bool-cases (str_eq g.type versioned_type)) [
    | inl b ↦
        let (x, e, f) =
          >>=-eq-ok (new_versioned_secret g) (λ x. put_versioned k x s) (rw (a, b) at h) in
        adds_versioned x (rw (a, b, e)) f
    | inr b ↦ elim (Bool-cases (str_eq g.type credential_type)) [
      | inl c ↦
          let (x, e, f) =
            >>=-eq-ok (new_credential_secret g) (λ x. put_credential k x s) (rw (a, b, c) at h) in
          adds_credential x (rw (a, b, c, e)) f
      | inr c ↦ let bad : err (unknown_secret_type g.type k) ≡ ok t = rw (a, b, c) at h in cc bad
    ]
  ]
]

slots_self :
    (k : String) (g : GenericSecret) (s t : Secrets)
    → slots k s ≡ empty_slots
    → Adds k g s t
    → slots_of g ≡ ok (slots k t)
slots_self k g s t e (adds_simple x h f) =
    h ∙ ground (arith, f, e, eq_iff k k, lookup-insert k k x s.simple_secrets)
slots_self k g s t e (adds_versioned x h f) =
    h ∙ ground (arith, f, e, eq_iff k k, lookup-insert k k x s.versioned_secrets)
slots_self k g s t e (adds_credential x h f) =
    h ∙ ground (arith, f, e, eq_iff k k, lookup-insert k k x s.credential_secrets)

slots-ne :
    (k j : String) (g : GenericSecret) (s t : Secrets)
    → k ≢ j
    → Adds k g s t
    → slots j t ≡ slots j s
slots-ne k j g s t n (adds_simple x h f) =
    ground (arith, f, eq_iff k j, lookup-insert k j x s.simple_secrets)
slots-ne k j g s t n (adds_versioned x h f) =
    ground (arith, f, eq_iff k j, lookup-insert k j x s.versioned_secrets)
slots-ne k j g s t n (adds_credential x h f) =
    ground (arith, f, eq_iff k j, lookup-insert k j x s.credential_secrets)

pub add_secrets-none :
    (m : Map GenericSecret) (j : String) (s t : Secrets)
    → lookup j m ≡ none
    → add_secrets m s ≡ ok t
    → slots j t ≡ slots j s
unfolding add_secrets lookup
add_secrets-none [] j s t n h = ground arith
add_secrets-none ((k, g) ∷ m) j s t n h =
    go (λ u. add_secrets-none m j u t) (add_secret k g s) refl h
  where
    go :
        ((u : Secrets) → lookup j m ≡ none → add_secrets m u ≡ ok t → slots j t ≡ slots j u)
        → (r : Result Secrets) → add_secret k g s ≡ r
        → (r >>= λ s'. add_secrets m s') ≡ ok t
        → slots j t ≡ slots j s
    go ih (err x) e f = cc
    go ih (ok u) e f =
        ih u (ground (arith, eq_iff k j)) f
        ∙ slots-ne k j g s u (ground (arith, eq_iff k j)) (add_secret-Adds k g s u e)

pub add_secrets-some :
    (m : Map GenericSecret) (j : String) (g : GenericSecret) (s t : Secrets)
    → Distinct m
    → lookup j m ≡ some g
    → slots j s ≡ empty_slots
    → add_secrets m s ≡ ok t
    → slots_of g ≡ ok (slots j t)
unfolding add_secrets lookup
add_secrets-some [] j g s t d n z h = cc
add_secrets-some ((k, x) ∷ m) j g s t (d, ds) n z h =
    go (λ u. add_secrets-some m j g u t ds) (add_secret k x s) refl h
  where
    go :
        ((u : Secrets)
          → lookup j m ≡ some g
          → slots j u ≡ empty_slots
          → add_secrets m u ≡ ok t
          → slots_of g ≡ ok (slots j t))
        → (r : Result Secrets) → add_secret k x s ≡ r
        → (r >>= λ s'. add_secrets m s') ≡ ok t
        → slots_of g ≡ ok (slots j t)
    go ih (err y) e f = cc
    go ih (ok u) e f = elim (Bool-cases (str_eq k j)) [
      | inl same ↦
          let k≡j : k ≡ j = (eq_iff k j).0 same in
          let first : some x ≡ some g = rw same at n in
          let z' : slots k s ≡ empty_slots = rw k≡j z in
          let this : slots_of x ≡ ok (slots k u) =
            slots_self k x s u z' (add_secret-Adds k x s u e) in
          let rest : slots k t ≡ slots k u = add_secrets-none m k u t d f in
          cc (this, rest, first, k≡j)
      | inr other ↦
          let k≢j : k ≢ j = ground (arith, eq_iff k j) in
          ih u (rw other at n) (slots-ne k j x s u k≢j (add_secret-Adds k x s u e) ∙ z) f
    ]

-- By which test an entry was made.
pub data Decoded (g : GenericSecret) (σ : Slots) : Type 0 where
  decoded_simple :
      (x : SimpleSecret)
      → str_eq g.type simple_type ≡ true
      → new_simple_secret g ≡ ok x
      → σ ≡ (some x, none, none)
      → Decoded g σ
  decoded_versioned :
      (x : VersionedSecret)
      → str_eq g.type simple_type ≡ false
      → str_eq g.type versioned_type ≡ true
      → new_versioned_secret g ≡ ok x
      → σ ≡ (none, some x, none)
      → Decoded g σ
  decoded_credential :
      (x : CredentialSecret)
      → str_eq g.type simple_type ≡ false
      → str_eq g.type versioned_type ≡ false
      → str_eq g.type credential_type ≡ true
      → new_credential_secret g ≡ ok x
      → σ ≡ (none, none, some x)
      → Decoded g σ

pub slots_of-Decoded : (g : GenericSecret) (σ : Slots) → slots_of g ≡ ok σ → Decoded g σ
unfolding slots_of
slots_of-Decoded g σ h = elim (Bool-cases (str_eq g.type simple_type)) [
  | inl a ↦
      let (x, e, f) = >>=-eq-ok (new_simple_secret g) (λ x. (some x, none, none)) (rw a at h) in
      decoded_simple x a e f
  | inr a ↦ elim (Bool-cases (str_eq g.type versioned_type)) [
    | inl b ↦
        let (x, e, f) =
          >>=-eq-ok (new_versioned_secret g) (λ x. (none, some x, none)) (rw (a, b) at h) in
        decoded_versioned x a b e f
    | inr b ↦ elim (Bool-cases (str_eq g.type credential_type)) [
      | inl c ↦
          let (x, e, f) =
            >>=-eq-ok (new_credential_secret g) (λ x. (none, none, some x)) (rw (a, b, c) at h) in
          decoded_credential x a b c e f
      | inr c ↦
          let bad : err (unknown_secret_type g.type "") ≡ ok σ = rw (a, b, c) at h in
          absurd (cc bad)
    ]
  ]
]
