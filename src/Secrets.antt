-- ===== src/Secrets.antt =====
-- secrets/secrets.go and secrets/encoding.go: the secrets of a document, by type.
-- A Go string that is only compared is a `String`, a secret or a value its bytes. The document comes
-- decoded from JSON; `walkCSIDirectory`, which reads it from files, is left out.
-- The store of secrets/store.go is the child Store.
pub mod Load
pub mod Slots
pub mod Lookup
pub mod Store
pub mod Accept
mod Tests
use baseplate_go.Common.{
  ℕ, ◌≡◌, Bool, true, false, List, [], ◌∷◌, ◌++◌, Option, none, some, String, str_eq, if◌then◌else◌,
  ◌==◌, Bytes, is_empty, Map, lookup, has, not,
}
use baseplate_go.Std.Base64.{std_encoding, decode}

abbrev pub Secret : Type 0
Secret = Bytes

abbrev pub simple_type : String
simple_type = "simple"

abbrev pub versioned_type : String
versioned_type = "versioned"

abbrev pub credential_type : String
credential_type = "credential"

pub data Error : Type 0 where
  empty_secret_key : Error
  secret_wrong_type : (path declared_type correct_type : String) → Error
  secret_not_found : (path : String) → Error
  too_many_fields : List (String × String) → Error  -- the joined TooManyFieldsErrors: type and key
  invalid_encoding : Error
  corrupt_input : Error
  unknown_secret_type : (type key : String) → Error

pub data Result {ℓ} (A : Type ℓ) : Type ℓ where
  ok : A → Result A
  err : Error → Result A

infixl 5 ◌>>=◌
abbrev pub ◌>>=◌ {ℓ κ} : {A : Type ℓ} {B : Type κ} → Result A → (A → Result B) → Result B
ok a >>= f = f a
err e >>= f = err e

-- The Go type is int: a value other than the two constants can be made by a conversion.
abbrev pub Encoding : Type 0
Encoding = ℕ

abbrev pub identity_encoding : Encoding
identity_encoding = 0

abbrev pub base64_encoding : Encoding
base64_encoding = 1

pub record SimpleSecret : Type 0 where
  pub value : Secret

pub record VersionedSecret : Type 0 where
  pub current : Secret
  pub previous : Secret
  pub next : Secret

pub record CredentialSecret : Type 0 where
  pub username : Bytes
  pub password : Bytes

pub record Vault : Type 0 where
  pub url : Bytes
  pub token : Bytes

pub record GenericSecret : Type 0 where
  pub type : String
  pub value : Bytes
  pub encoding : Encoding
  pub current : Bytes
  pub previous : Bytes
  pub next : Bytes
  pub username : Bytes
  pub password : Bytes

pub record Document : Type 0 where
  pub secrets : Map GenericSecret
  pub vault : Vault

pub record Secrets : Type 0 where
  pub simple_secrets : Map SimpleSecret
  pub versioned_secrets : Map VersionedSecret
  pub credential_secrets : Map CredentialSecret
  pub vault : Vault

unfoldable pub get_simple_secret : Secrets → String → Result SimpleSecret
get_simple_secret s path =
    if str_eq path "" then err empty_secret_key else elim (lookup path s.simple_secrets) [
      | some secret ↦ ok secret
      | none ↦
          if has path s.versioned_secrets
          then err (secret_wrong_type path simple_type versioned_type)
          else if has path s.credential_secrets
          then err (secret_wrong_type path simple_type credential_type)
          else err (secret_not_found path)
    ]

unfoldable pub get_versioned_secret : Secrets → String → Result VersionedSecret
get_versioned_secret s path =
    if str_eq path "" then err empty_secret_key else elim (lookup path s.versioned_secrets) [
      | some secret ↦ ok secret
      | none ↦
          if has path s.simple_secrets
          then err (secret_wrong_type path versioned_type simple_type)
          else if has path s.credential_secrets
          then err (secret_wrong_type path versioned_type credential_type)
          else err (secret_not_found path)
    ]

unfoldable pub get_credential_secret : Secrets → String → Result CredentialSecret
get_credential_secret s path =
    if str_eq path "" then err empty_secret_key else elim (lookup path s.credential_secrets) [
      | some secret ↦ ok secret
      | none ↦
          if has path s.simple_secrets
          then err (secret_wrong_type path credential_type simple_type)
          else if has path s.versioned_secrets
          then err (secret_wrong_type path credential_type versioned_type)
          else err (secret_not_found path)
    ]

-- Encoding.decodeValue: every encoding but identity is read as base64.
unfoldable pub decode_value : Encoding → Bytes → Result Secret
decode_value e value =
    if is_empty value
    then ok []
    else if e == identity_encoding
    then ok value
    else elim (decode std_encoding value) [ none ↦ err corrupt_input | some data' ↦ ok data' ]

unfoldable pub new_simple_secret : GenericSecret → Result SimpleSecret
new_simple_secret secret = do
  value ← decode_value secret.encoding secret.value
  ok (record { value = value })

-- SimpleSecret.AsVersioned
pub as_versioned : SimpleSecret → VersionedSecret
as_versioned s = record { current = s.value; previous = []; next = [] }

unfoldable pub new_versioned_secret : GenericSecret → Result VersionedSecret
new_versioned_secret secret = do
  current ← decode_value secret.encoding secret.current
  previous ← decode_value secret.encoding secret.previous
  next ← decode_value secret.encoding secret.next
  ok (record { current = current; previous = previous; next = next })

unfoldable pub get_all : VersionedSecret → List Secret
get_all v =
    v.current ∷ (if is_empty v.previous then [] else v.previous ∷ [])
    ++ (if is_empty v.next then [] else v.next ∷ [])

unfoldable pub new_credential_secret : GenericSecret → Result CredentialSecret
new_credential_secret secret =
    ok (record { username = secret.username; password = secret.password })
