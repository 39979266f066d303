-- ===== src/Signing.antt =====
-- signing/v1.go, signing/versions.go and signing/interface.go: signatures with an expiration.
-- HMAC-SHA256 is the parameter `hmac`, of the key and the message; time.Now() is an argument.
pub mod Header
pub mod RoundTrip
pub mod Soundness
pub mod Failures
pub mod ToyMac
mod Tests
use baseplate_go.Common.{
  ℕ, ◌+◌, ◌-◌, ◌*◌, ◌/◌, ◌%◌, ◌^◌, ◌≡◌, Bool, true, false, ◌&&◌, List, [], ◌∷◌, ◌++◌, Option, none,
  some, Bytes, is_empty, bytes_eq, length, take, drop, ltb, ◌==◌, if◌then◌else◌,
}
use baseplate_go.Common.Int.{ℤ, pos, negsuc, ltb_ℤ}
use baseplate_go.Std.Base64.{url_encoding, encode, decode}
use baseplate_go.Std.Instant.{Instant, before, is_zero, unix, unix32}
use baseplate_go.Secrets.{VersionedSecret, Secret, get_all}

abbrev pub v1_header_length : ℕ
v1_header_length = 7

-- V1HeaderLength + sha256.Size
abbrev pub v1_signature_raw_length : ℕ
v1_signature_raw_length = v1_header_length + 32

abbrev pub v1_signature_length : ℕ
v1_signature_length = v1_signature_raw_length / 3 * 4

pub record SignArgs : Type 0 where
  pub message : Bytes
  pub secret : VersionedSecret
  pub expires_at : Instant
  pub expires_in : ℤ

-- The VerifyErrors of the package, by reason and data. `short_header` is the error of binary.Read.
pub data VerifyError : Type 0 where
  length_mismatch short_header bad_base64 expired mismatch : VerifyError
  unknown_version : ℕ → VerifyError

pub data SignError : Type 0 where
  empty_key already_expired : SignError

pub data Signed : Type 0 where
  signed : Bytes → Signed
  unsigned : SignError → Signed

-- `crash` is the panic of an index out of range.
pub data Verdict : Type 0 where
  valid : Verdict
  invalid : VerifyError → Verdict
  crash : Verdict

-- now.Add(d)
abbrev pub add_duration : Instant → ℤ → Instant
add_duration t (pos n) = t + n
add_duration t (negsuc n) = t - (n + 1)

abbrev pub expiration : SignArgs → Instant → Instant
expiration args now =
    if is_zero args.expires_at then add_duration now args.expires_in else args.expires_at

-- headerV1 in little endian: the version, two bytes of padding, the expiration.
unfoldable pub header : ℕ → ℕ → Bytes
header version e =
    version ∷ 0 ∷ 0 ∷ e % 256 ∷ e / 256 % 256 ∷ e / 65_536 % 256 ∷ e / 16_777_216 % 256 ∷ []

-- binary.Read of a headerV1: the version and the expiration.
unfoldable pub read_header : Bytes → Option (ℕ × ℕ)
read_header (v ∷ _ ∷ _ ∷ a ∷ b ∷ c ∷ d ∷ _) = some (v, a + b * 256 + c * 65_536 + d * 16_777_216)
read_header _ = none

module _ (hmac : Bytes → Bytes → Bytes) where
  -- What Sign encodes: the header, and the MAC of the header and the message.
  abbrev pub raw_signature : Bytes → ℕ → Bytes → Bytes
  raw_signature key e message = header 1 e ++ hmac key (header 1 e ++ message)

  -- v1.Sign, which signing.Sign calls.
  unfoldable pub sign : SignArgs → Instant → Signed
  sign args now =
      let key = args.secret.current in
      let e = expiration args now in
      if is_empty key
      then unsigned empty_key
      else if before e now
      then unsigned already_expired
      else signed (encode url_encoding (raw_signature key (unix32 e) args.message))

  -- The loop of v1Verify over the keys.
  unfoldable pub try_keys : Bytes → Bytes → List Secret → Verdict
  try_keys message raw [] = invalid mismatch
  try_keys message raw (key ∷ keys) =
      let rest = try_keys message raw keys in
      if is_empty key
      then rest
      else if bytes_eq (drop v1_header_length raw) (hmac key (take v1_header_length raw ++ message))
      then valid
      else rest

  abbrev pub check_header : Bytes → Bytes → List Secret → Instant → Option (ℕ × ℕ) → Verdict
  check_header message raw keys now none = invalid short_header
  check_header message raw keys now (some (version, e)) =
      if version == 1
      then (if ltb_ℤ (pos e) (unix now) then invalid expired else try_keys message raw keys)
      else invalid (unknown_version version)

  unfoldable pub v1_verify : Bytes → Bytes → List Secret → Instant → Verdict
  v1_verify message raw keys now =
      if length raw == v1_signature_raw_length
      then check_header message raw keys now (read_header raw)
      else invalid length_mismatch

  -- v1.Verify
  unfoldable pub verify_v1 : Bytes → Bytes → VersionedSecret → Instant → Verdict
  verify_v1 message signature secret now =
      if length signature == v1_signature_length
      then elim (decode url_encoding signature) [
        | none ↦ invalid bad_base64
        | some raw ↦ v1_verify message raw (get_all secret) now
      ]
      else invalid length_mismatch

  -- The lookup in `versions` by the first byte; an empty slice has none.
  abbrev pub dispatch : Bytes → Bytes → List Secret → Instant → Verdict
  dispatch message [] keys now = crash
  dispatch message (v ∷ raw) keys now =
      if v == 1 then v1_verify message (v ∷ raw) keys now else invalid (unknown_version v)

  -- signing.Verify
  unfoldable pub verify : Bytes → Bytes → VersionedSecret → Instant → Verdict
  verify message signature secret now = elim (decode url_encoding signature) [
    | none ↦ invalid bad_base64
    | some raw ↦ dispatch message raw (get_all secret) now
  ]
