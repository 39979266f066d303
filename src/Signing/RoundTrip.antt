-- ===== src/Signing/RoundTrip.antt =====
-- Verify after Sign (signing/v1.go).
use baseplate_go.Common.{
  ℕ, ◌+◌, ◌/◌, ◌^◌, ◌<◌, ◌≤◌, ◌≡◌, sym, ap, ◌∙◌, ◌⊎◌, inl, inr, true, false, List, [], ◌∷◌, ◌++◌,
  some, Bytes, is_empty, length, ◌==◌, arith, All, All-append, Bool-cases, ==_iff,
}
use baseplate_go.Common.Int.{pos, ◌≤ℤ◌}
use baseplate_go.Std.Base64.{url_encoding, encode, decode, IsByte}
use baseplate_go.Std.Base64.RoundTrip.{url_encoding-IsAlphabet, decode-encode, length-encode}
use baseplate_go.Std.Instant.{Instant, unix, unix32, epoch, second, before}
use baseplate_go.Secrets.{VersionedSecret, get_all}
use baseplate_go.Signing.{
  SignArgs, signed, unsigned, empty_key, already_expired, raw_signature, header, sign, expiration,
  valid, verify, verify_v1, v1_signature_length,
}
use baseplate_go.Signing.Header.{
  read-header, take-header, drop-header, length-header, header-IsByte,
}
use baseplate_go.Signing.Soundness.{MadeBy, IsGood, verify_iff, valid-v1_verify}

-- What is documented of HMAC-SHA256: it returns 32 bytes.
pub record IsHmac (hmac : Bytes → Bytes → Bytes) : Type 0 where
  pub size : (key message : Bytes) → length (hmac key message) ≡ 32
  pub bytes : (key message : Bytes) → All IsByte (hmac key message)

abbrev pub Among : Bytes → List Bytes → Type 0
Among key [] = ⊥
Among key (k ∷ ks) = (key ≡ k) ⊎ Among key ks

-- The expiration is a time that 32 bits of seconds hold: from 1970 to 2106.
abbrev pub InRange : Instant → Type 0
InRange e = (epoch ≤ e / second) × (e / second < epoch + 2 ^ 32)

pub unix_in_range :
    (later e : Instant) → later / second ≤ e / second → InRange e → unix later ≤ℤ pos (unix32 e)
unix_in_range later e h r = ground arith

module _ (hmac : Bytes → Bytes → Bytes) where
  -- What a successful Sign says of its arguments, and its result.
  pub sign-signed :
      (args : SignArgs) (now : Instant) (sig : Bytes)
      → sign hmac args now ≡ signed sig
      → (is_empty args.secret.current ≡ false)
        × (before (expiration args now) now ≡ false)
        × (sig
            ≡ encode url_encoding (
                raw_signature hmac args.secret.current (unix32 (expiration args now)) args.message))
  unfolding sign
  sign-signed args now sig h = elim (Bool-cases (is_empty args.secret.current)) [
    | inl a ↦ let bad : unsigned empty_key ≡ signed sig = rw a at h in absurd (cc bad)
    | inr a ↦ elim (Bool-cases (before (expiration args now) now)) [
      | inl b ↦ let bad : unsigned already_expired ≡ signed sig = rw (a, b) at h in absurd (cc bad)
      | inr b ↦
          let good : signed (
                encode url_encoding (
                  raw_signature hmac args.secret.current (unix32 (expiration args now))
                    args.message))
              ≡ signed sig =
            rw (a, b) at h in
          (a, b, cc good)
    ]
  ]

  module _ (ok : IsHmac hmac) where
    pub decode-raw :
        (key message : Bytes) (e : ℕ)
        → decode url_encoding (encode url_encoding (raw_signature hmac key e message))
          ≡ some (raw_signature hmac key e message)
    decode-raw key message e = decode-encode url_encoding-IsAlphabet _ (
        All-append IsByte (header 1 e) (hmac key (header 1 e ++ message))
          (header-IsByte 1 e (omega arith)) (ok.bytes key (header 1 e ++ message)))

    pub length-raw : (key message : Bytes) (e : ℕ) → length (raw_signature hmac key e message) ≡ 39
    length-raw key message e = omega (
      arith,
      length-header 1 e (hmac key (header 1 e ++ message)),
      ok.size key (header 1 e ++ message),
    )

    raw-MadeBy :
        (key message : Bytes) (e : ℕ) (keys : List Bytes)
        → is_empty key ≡ false
        → Among key keys
        → MadeBy hmac message (raw_signature hmac key e message) keys
    raw-MadeBy key message e [] n a = absurd a
    raw-MadeBy key message e (k ∷ ks) n (inl same) = inl (
      rw (← same) n,
      drop-header 1 e _ ∙ (rw same (ap (λ t. hmac k (t ++ message)) (sym (take-header 1 e _)))),
    )
    raw-MadeBy key message e (k ∷ ks) n (inr later) = inr (raw-MadeBy key message e ks n later)

    raw-IsGood :
        (key message : Bytes) (e : ℕ) (keys : List Bytes) (now : Instant)
        → is_empty key ≡ false
        → Among key keys
        → e < 2 ^ 32
        → unix now ≤ℤ pos e
        → IsGood hmac message (raw_signature hmac key e message) keys now
    raw-IsGood key message e keys now n a h t =
        (length-raw key message e, (e, read-header 1 e _ h, t), raw-MadeBy key message e keys n a)

    -- If Sign succeeds with an expiration from 1970 to 2106, both Verify functions accept its result for
    -- the same message until that second, with every secret one of whose versions in use (GetAll) is the
    -- key that signed: so also while the secret is rotated.
    pub verify-sign :
        (args : SignArgs) (now later : Instant) (sig : Bytes) (secret : VersionedSecret)
        → sign hmac args now ≡ signed sig
        → InRange (expiration args now)
        → later / second ≤ expiration args now / second
        → Among args.secret.current (get_all secret)
        → (verify hmac args.message sig secret later ≡ valid)
          × (verify_v1 hmac args.message sig secret later ≡ valid)
    unfolding verify_v1
    verify-sign args now later sig secret h range t a =
        let (n, b, s) = sign-signed args now sig h in
        let key = args.secret.current in
        let e = unix32 (expiration args now) in
        let good : IsGood hmac args.message (raw_signature hmac key e args.message) (get_all secret)
            later =
          raw-IsGood key args.message e (get_all secret) later n a (omega arith)
            (unix_in_range later (expiration args now) t range) in
        let d : decode url_encoding sig ≡ some (raw_signature hmac key e args.message) =
          rw s (decode-raw key args.message e) in
        let l : (length sig == v1_signature_length) ≡ true =
          (==_iff (length sig) v1_signature_length).1 (
            ap length s
            ∙ omega (
              arith,
              length-encode url_encoding (raw_signature hmac key e args.message),
              length-raw key args.message e,
            )) in
        (
          (verify_iff hmac args.message sig secret later).1 (_, d, good),
          rw (l, d) (valid-v1_verify hmac args.message _ (get_all secret) later good),
        )
