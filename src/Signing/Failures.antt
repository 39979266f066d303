-- ===== src/Signing/Failures.antt =====
-- Sign and Verify at expirations outside 32 bits and on signatures without bytes (signing/v1.go,
-- signing/versions.go).
use baseplate_go.Common.{
  ℕ, ◌≡◌, ◌≢◌, refl, ◌↔◌, inl, inr, List, [], ◌∷◌, Option, none, some, Bytes, ◌==◌, arith,
  Bool-cases,
}
use baseplate_go.Std.Base64.{url_encoding, decode}
use baseplate_go.Std.Instant.{Instant}
use baseplate_go.Secrets.{VersionedSecret, Secret, get_all}
use baseplate_go.Signing.{
  invalid, crash, bad_base64, read_header, v1_verify, verify, dispatch, check_header, try_keys,
}

module _ (hmac : Bytes → Bytes → Bytes) where
  try_keys-ne-crash :
      (message raw : Bytes) (keys : List Secret) → try_keys hmac message raw keys ≢ crash
  unfolding try_keys
  try_keys-ne-crash message raw [] h = cc
  try_keys-ne-crash message raw (key ∷ keys) h = ground (arith, try_keys-ne-crash message raw keys)

  check_header-ne-crash :
      (message raw : Bytes) (keys : List Secret) (now : Instant) (o : Option (ℕ × ℕ))
      → check_header hmac message raw keys now o ≢ crash
  check_header-ne-crash message raw keys now none h = cc
  check_header-ne-crash message raw keys now (some (v, e)) h =
      ground (arith, try_keys-ne-crash message raw keys)

  v1_verify-ne-crash :
      (message raw : Bytes) (keys : List Secret) (now : Instant)
      → v1_verify hmac message raw keys now ≢ crash
  unfolding v1_verify
  v1_verify-ne-crash message raw keys now h =
      ground (arith, check_header-ne-crash message raw keys now (read_header raw))

  -- Verify panics on exactly the signatures that decode to no byte, such as the empty text, where
  -- its documentation promises a VerifyError.
  pub verify_crash_iff :
      (message signature : Bytes) (secret : VersionedSecret) (now : Instant)
      → (verify hmac message signature secret now ≡ crash)
        ↔ (decode url_encoding signature ≡ some [])
  unfolding verify
  verify_crash_iff message signature secret now =
      (go (decode url_encoding signature), λ e. rw (e, verify))
    where
      go :
          (o : Option Bytes)
          → elim o [
            | none ↦ invalid bad_base64
            | some raw ↦ dispatch hmac message raw (get_all secret) now
          ]
            ≡ crash
          → o ≡ some []
      go none h = cc
      go (some []) h = refl
      go (some (v ∷ raw)) h = elim (Bool-cases (v == 1)) [
        | inl one ↦ absurd (v1_verify-ne-crash message (v ∷ raw) (get_all secret) now (rw one at h))
        | inr other ↦ ground arith
      ]
