-- ===== src/Signing/Soundness.antt =====
-- The signatures that Verify of signing/versions.go accepts.
use baseplate_go.Common.{
  bytes_eq_iff, ℕ, ◌≡◌, refl, ◌∙◌, ◌↔◌, ◌⊎◌, inl, inr, false, List, [], ◌∷◌, ◌++◌, Option, none,
  some, Bytes, is_empty, length, take, drop, ◌==◌, arith, Bool-cases, ==_iff,
}
use baseplate_go.Common.Int.{pos, ltb_ℤ, ◌≤ℤ◌}
use baseplate_go.Std.Base64.{url_encoding, decode}
use baseplate_go.Std.Instant.{Instant, unix}
use baseplate_go.Secrets.{VersionedSecret, Secret, get_all}
use baseplate_go.Signing.{
  valid, invalid, crash, expired, unknown_version, length_mismatch, bad_base64, read_header,
  try_keys, check_header, v1_verify, dispatch, verify,
}
use baseplate_go.Signing.Header.{read_header-first}

module _ (hmac : Bytes → Bytes → Bytes) where
  -- One of the keys that are not empty made the MAC.
  abbrev pub MadeBy : Bytes → Bytes → List Secret → Type 0
  MadeBy message raw [] = ⊥
  MadeBy message raw (key ∷ keys) =
      ((is_empty key ≡ false) × (drop 7 raw ≡ hmac key (take 7 raw ++ message)))
      ⊎ MadeBy message raw keys

  try_keys-valid :
      (message raw : Bytes) (keys : List Secret)
      → try_keys hmac message raw keys ≡ valid
      → MadeBy message raw keys
  unfolding try_keys
  try_keys-valid message raw [] h = cc
  try_keys-valid message raw (key ∷ keys) h = ground (
    arith,
    bytes_eq_iff (drop 7 raw) (hmac key (take 7 raw ++ message)),
    try_keys-valid message raw keys,
  )

  valid-try_keys :
      (message raw : Bytes) (keys : List Secret)
      → MadeBy message raw keys
      → try_keys hmac message raw keys ≡ valid
  unfolding try_keys
  valid-try_keys message raw [] h = absurd h
  valid-try_keys message raw (key ∷ keys) (inl h) =
      ground (arith, bytes_eq_iff (drop 7 raw) (hmac key (take 7 raw ++ message)))
  valid-try_keys message raw (key ∷ keys) (inr h) =
      ground (arith, valid-try_keys message raw keys h)

  -- A raw signature that is good for the message, the keys and the time.
  abbrev pub IsGood : Bytes → Bytes → List Secret → Instant → Type 0
  IsGood message raw keys now =
      (length raw ≡ 39)
      × ((e : ℕ) × (read_header raw ≡ some (1, e)) × (unix now ≤ℤ pos e))
      × MadeBy message raw keys

  check_header-valid :
      (message raw : Bytes) (keys : List Secret) (now : Instant) (o : Option (ℕ × ℕ))
      → check_header hmac message raw keys now o ≡ valid
      → (e : ℕ) × (o ≡ some (1, e)) × (unix now ≤ℤ pos e) × MadeBy message raw keys
  check_header-valid message raw keys now none h = absurd (cc h)
  check_header-valid message raw keys now (some (v, e)) h = elim (Bool-cases (v == 1)) [
    | inl one ↦ elim (Bool-cases (ltb_ℤ (pos e) (unix now))) [
      | inl late ↦ let bad : invalid expired ≡ valid = rw (one, late) at h in absurd (cc bad)
      | inr early ↦
          (e, ground arith, ground arith, try_keys-valid message raw keys (rw (one, early) at h))
    ]
    | inr other ↦ let bad : invalid (unknown_version v) ≡ valid = rw other at h in absurd (cc bad)
  ]

  v1_verify-valid :
      (message raw : Bytes) (keys : List Secret) (now : Instant)
      → v1_verify hmac message raw keys now ≡ valid
      → IsGood message raw keys now
  unfolding v1_verify
  v1_verify-valid message raw keys now h = elim (Bool-cases (length raw == 39)) [
    | inl l ↦
        let (e, r, t, m) = check_header-valid message raw keys now (read_header raw) (rw l at h) in
        ((==_iff (length raw) 39).0 l, (e, r, t), m)
    | inr l ↦ let bad : invalid length_mismatch ≡ valid = rw l at h in absurd (cc bad)
  ]

  pub valid-v1_verify :
      (message raw : Bytes) (keys : List Secret) (now : Instant)
      → IsGood message raw keys now
      → v1_verify hmac message raw keys now ≡ valid
  unfolding v1_verify
  valid-v1_verify message raw keys now (l, (e, r, t), m) =
      let timely : ltb_ℤ (pos e) (unix now) ≡ false = ground arith in
      rw ((==_iff (length raw) 39).1 l, r, timely) (valid-try_keys message raw keys m)

  -- The first byte of a raw signature with a header of version 1.
  dispatch-v1 :
      (message raw : Bytes) (keys : List Secret) (now : Instant)
      → IsGood message raw keys now
      → dispatch hmac message raw keys now ≡ v1_verify hmac message raw keys now
  dispatch-v1 message [] keys now (l, rest, m) = absurd (omega arith)
  dispatch-v1 message (v ∷ raw) keys now (l, (e, r, t), m) =
      rw ((==_iff v 1).1 (read_header-first v 1 e raw r))

  -- Verify accepts a signature exactly if it decodes to 39 bytes whose header has version 1 and an
  -- expiration that is not past, and the other 32 bytes are the MAC of the header and the message
  -- under one of the secret's versions that is not empty.
  pub verify_iff :
      (message signature : Bytes) (secret : VersionedSecret) (now : Instant)
      → (verify hmac message signature secret now ≡ valid) ↔ (
          (raw : Bytes) × (decode url_encoding signature ≡ some raw)
          × IsGood message raw (get_all secret) now)
  unfolding verify
  verify_iff message signature secret now = (there, back)
    where
      keys : List Secret
      keys = get_all secret

      go :
          (o : Option Bytes)
          → decode url_encoding signature ≡ o
          → verify hmac message signature secret now ≡ valid
          → (raw : Bytes) × (decode url_encoding signature ≡ some raw) × IsGood message raw keys now
      go none e h = let bad : invalid bad_base64 ≡ valid = rw (e, verify) at h in absurd (cc bad)
      go (some []) e h = let bad : crash ≡ valid = rw (e, verify) at h in absurd (cc bad)
      go (some (v ∷ raw)) e h = elim (Bool-cases (v == 1)) [
        | inl one ↦
            (v ∷ raw, e, v1_verify-valid message (v ∷ raw) keys now (rw (e, verify, one) at h))
        | inr other ↦
            let bad : invalid (unknown_version v) ≡ valid = rw (e, verify, other) at h in
            absurd (cc bad)
      ]

      there :
          verify hmac message signature secret now ≡ valid
          → (raw : Bytes) × (decode url_encoding signature ≡ some raw) × IsGood message raw keys now
      there = go (decode url_encoding signature) refl

      back :
          ((raw : Bytes) × (decode url_encoding signature ≡ some raw) × IsGood message raw keys now)
          → verify hmac message signature secret now ≡ valid
      back (raw, e, g) =
          rw (e, verify)
            (dispatch-v1 message raw keys now g ∙ valid-v1_verify message raw keys now g)
