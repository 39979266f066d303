-- ===== src/Secrets/Lookup.antt =====
-- The getters of secrets/secrets.go on the secrets of a document, key by key.
use baseplate_go.Common.{
  ◌≡◌, refl, ◌∙◌, ◌≢◌, [], String, str_eq, if◌then◌else◌, lookup, Option, none, some, Distinct,
  eq_iff, arith,
}
use baseplate_go.Secrets.{
  simple_type, versioned_type, credential_type, Result, ok, err, ◌>>=◌, GenericSecret, Document,
  Secrets, new_simple_secret, new_versioned_secret, new_credential_secret, SimpleSecret,
  VersionedSecret, CredentialSecret, secret_wrong_type, secret_not_found, get_simple_secret,
  get_versioned_secret, get_credential_secret,
}
use baseplate_go.Secrets.Load.{add_secrets, secrets_validate, validate}
use baseplate_go.Secrets.Slots.{
  slots, slots_of, empty_slots, add_secrets-none, add_secrets-some, decoded_simple,
  decoded_versioned, decoded_credential, slots_of-Decoded,
}

-- What the getters are to return, from the document's entry under the path.
unfoldable pub expect_simple : String → Option GenericSecret → Result SimpleSecret
expect_simple path none = err (secret_not_found path)
expect_simple path (some g) =
    if str_eq g.type simple_type
    then new_simple_secret g
    else err (secret_wrong_type path simple_type g.type)

unfoldable pub expect_versioned : String → Option GenericSecret → Result VersionedSecret
expect_versioned path none = err (secret_not_found path)
expect_versioned path (some g) =
    if str_eq g.type versioned_type
    then new_versioned_secret g
    else err (secret_wrong_type path versioned_type g.type)

unfoldable pub expect_credential : String → Option GenericSecret → Result CredentialSecret
expect_credential path none = err (secret_not_found path)
expect_credential path (some g) =
    if str_eq g.type credential_type
    then new_credential_secret g
    else err (secret_wrong_type path credential_type g.type)

abbrev pub Serves : String → Option GenericSecret → Secrets → Type 0
Serves path o s =
    (get_simple_secret s path ≡ expect_simple path o)
    × (get_versioned_secret s path ≡ expect_versioned path o)
    × (get_credential_secret s path ≡ expect_credential path o)

none-Serves :
    (path : String) (s : Secrets) → path ≢ "" → slots path s ≡ empty_slots → Serves path none s
unfolding get_simple_secret get_versioned_secret get_credential_secret expect_simple
    expect_versioned expect_credential
none-Serves path s n e = ground (arith, eq_iff path "")

-- The three type names are different.
types_differ :
    (simple_type ≢ versioned_type)
    × (simple_type ≢ credential_type)
    × (versioned_type ≢ credential_type)
types_differ = (
  ground (arith, eq_iff simple_type versioned_type),
  ground (arith, eq_iff simple_type credential_type),
  ground (arith, eq_iff versioned_type credential_type),
)

module _ (path : String) (g : GenericSecret) (s : Secrets) (n : path ≢ "") where
  simple-Serves :
      (x : SimpleSecret)
      → g.type ≡ simple_type
      → new_simple_secret g ≡ ok x
      → slots path s ≡ (some x, none, none)
      → Serves path (some g) s
  unfolding get_simple_secret get_versioned_secret get_credential_secret expect_simple
      expect_versioned expect_credential
  simple-Serves x k e f = ground (
    arith,
    types_differ,
    eq_iff path "",
    eq_iff g.type simple_type,
    eq_iff g.type versioned_type,
    eq_iff g.type credential_type,
  )

  versioned-Serves :
      (x : VersionedSecret)
      → g.type ≡ versioned_type
      → new_versioned_secret g ≡ ok x
      → slots path s ≡ (none, some x, none)
      → Serves path (some g) s
  unfolding get_simple_secret get_versioned_secret get_credential_secret expect_simple
      expect_versioned expect_credential
  versioned-Serves x k e f = ground (
    arith,
    types_differ,
    eq_iff path "",
    eq_iff g.type simple_type,
    eq_iff g.type versioned_type,
    eq_iff g.type credential_type,
  )

  credential-Serves :
      (x : CredentialSecret)
      → g.type ≡ credential_type
      → new_credential_secret g ≡ ok x
      → slots path s ≡ (none, none, some x)
      → Serves path (some g) s
  unfolding get_simple_secret get_versioned_secret get_credential_secret expect_simple
      expect_versioned expect_credential
  credential-Serves x k e f = ground (
    arith,
    types_differ,
    eq_iff path "",
    eq_iff g.type simple_type,
    eq_iff g.type versioned_type,
    eq_iff g.type credential_type,
  )

  some-Serves : slots_of g ≡ ok (slots path s) → Serves path (some g) s
  some-Serves h = elim (slots_of-Decoded g (slots path s) h) [
    | decoded_simple x k e f ↦ simple-Serves x ((eq_iff _ _).0 k) e f
    | decoded_versioned x j k e f ↦ versioned-Serves x ((eq_iff _ _).0 k) e f
    | decoded_credential x i j k e f ↦ credential-Serves x ((eq_iff _ _).0 k) e f
  ]

-- On the secrets of a document that is accepted, each getter returns for every non-empty path what
-- the document's entry says: the decoded secret if the entry has the getter's type, the wrong-type
-- error with the entry's type if it has another, and the not-found error if there is no entry.
pub secrets_validate-Serves :
    (d : Document) (s : Secrets) (path : String)
    → Distinct d.secrets
    → secrets_validate d ≡ ok s
    → path ≢ ""
    → Serves path (lookup path d.secrets) s
unfolding secrets_validate
secrets_validate-Serves d s path distinct h n = go (validate d) (lookup path d.secrets) refl h
  where
    fresh : Secrets
    fresh = record {
      simple_secrets = [];
      versioned_secrets = [];
      credential_secrets = [];
      vault = d.vault;
    }

    go :
        (v : Result (Unit {0})) (o : Option GenericSecret)
        → lookup path d.secrets ≡ o
        → (v >>= λ _. add_secrets d.secrets fresh) ≡ ok s
        → Serves path o s
    go (err x) o e f = absurd (cc f)
    go (ok u) none e f =
        none-Serves path s n (add_secrets-none d.secrets path fresh s e f ∙ unfold lookup in refl)
    go (ok u) (some g) e f =
        some-Serves path g s n
          (add_secrets-some d.secrets path g fresh s distinct e (unfold lookup in refl) f)
