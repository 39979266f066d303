-- ===== src/Secrets/Load.antt =====
-- From a document to the secrets: Document.Validate and secretsValidate of secrets/secrets.go.
use baseplate_go.Common.{
  Bool, true, false, ◌&&◌, ◌||◌, not, List, [], ◌∷◌, ◌++◌, String, str_eq, if◌then◌else◌, is_empty,
  Map, insert,
}
use baseplate_go.Secrets.{
  simple_type, versioned_type, credential_type, too_many_fields, unknown_secret_type, Result, ok,
  err, ◌>>=◌, GenericSecret, Document, Secrets, new_simple_secret, new_versioned_secret,
  new_credential_secret, SimpleSecret, VersionedSecret, CredentialSecret,
}

unfoldable pub not_only_simple_secret : GenericSecret → Bool
not_only_simple_secret s =
    not (is_empty s.current)
    || not (is_empty s.previous)
    || not (is_empty s.next)
    || not (is_empty s.username)
    || not (is_empty s.password)

unfoldable pub not_only_versioned_secret : GenericSecret → Bool
not_only_versioned_secret s =
    not (is_empty s.value) || not (is_empty s.username) || not (is_empty s.password)

unfoldable pub not_only_credential_secret : GenericSecret → Bool
not_only_credential_secret s =
    not (is_empty s.value)
    || not (is_empty s.current)
    || not (is_empty s.previous)
    || not (is_empty s.next)

abbrev pub complain : Bool → String → String → List (String × String)
complain true type key = (type, key) ∷ []
complain false type key = []

-- What one round of the loop of Validate appends to its errors.
unfoldable pub entry_errors : String → GenericSecret → List (String × String)
unfolding not_only_simple_secret not_only_versioned_secret not_only_credential_secret
entry_errors key s =
    complain (str_eq s.type simple_type && not_only_simple_secret s) simple_type key
    ++ (complain (str_eq s.type versioned_type && not_only_versioned_secret s) versioned_type key
        ++ complain (str_eq s.type credential_type && not_only_credential_secret s) credential_type
            key)

unfoldable pub document_errors : Map GenericSecret → List (String × String)
document_errors [] = []
document_errors ((key, s) ∷ rest) = entry_errors key s ++ document_errors rest

-- errors.Join of no error is nil.
abbrev pub join_errors : List (String × String) → Result (Unit {0})
join_errors [] = ok tt
join_errors (e ∷ es) = err (too_many_fields (e ∷ es))

unfoldable pub validate : Document → Result (Unit {0})
validate d = join_errors (document_errors d.secrets)

abbrev pub put_simple : String → SimpleSecret → Secrets → Secrets
put_simple key x s = record s { simple_secrets = insert key x s.simple_secrets }

abbrev pub put_versioned : String → VersionedSecret → Secrets → Secrets
put_versioned key x s = record s { versioned_secrets = insert key x s.versioned_secrets }

abbrev pub put_credential : String → CredentialSecret → Secrets → Secrets
put_credential key x s = record s { credential_secrets = insert key x s.credential_secrets }

-- One round of the loop of secretsValidate.
unfoldable pub add_secret : String → GenericSecret → Secrets → Result Secrets
add_secret key g s =
    if str_eq g.type simple_type
    then new_simple_secret g >>= (λ x. ok (put_simple key x s))
    else if str_eq g.type versioned_type
    then new_versioned_secret g >>= (λ x. ok (put_versioned key x s))
    else if str_eq g.type credential_type
    then new_credential_secret g >>= (λ x. ok (put_credential key x s))
    else err (unknown_secret_type g.type key)

unfoldable pub add_secrets : Map GenericSecret → Secrets → Result Secrets
add_secrets [] s = ok s
add_secrets ((key, g) ∷ rest) s = add_secret key g s >>= λ s'. add_secrets rest s'

unfoldable pub secrets_validate : Document → Result Secrets
secrets_validate d = do
  _ ← validate d
  add_secrets d.secrets (record {
    simple_secrets = [];
    versioned_secrets = [];
    credential_secrets = [];
    vault = d.vault;
  })
