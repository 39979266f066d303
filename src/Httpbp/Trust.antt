-- ===== src/Httpbp/Trust.antt =====
-- Requests with signed headers (TrustHeaderSignature of httpbp/headers.go).
use baseplate_go.Common.{
  ◌/◌, ◌≡◌, ◌≤◌, refl, ap, ◌∙◌, true, false, List, [], ◌∷◌, none, some, Bytes, String, is_empty,
  All,
}
use baseplate_go.Common.Int.{ℤ}
use baseplate_go.Std.Base64.{std_encoding, encode, decode, IsByte}
use baseplate_go.Std.Base64.RoundTrip.{std_encoding-IsAlphabet, decode-encode}
use baseplate_go.Std.Instant.{Instant, second}
use baseplate_go.Secrets as Secrets
use baseplate_go.Secrets.{VersionedSecret, Result, get_versioned_secret, get_all}
use baseplate_go.Signing.{SignArgs, Signed, signed, unsigned, valid, sign, verify, add_duration}
use baseplate_go.Signing.RoundTrip.{IsHmac, Among, InRange, verify-sign}
use baseplate_go.Httpbp.Headers.{
  Header, get, EdgeContextHeaders, SpanHeaders, edge_context_header, edge_context_signature_header,
  span_signature_header, new_edge_context_headers, new_span_headers, edge_as_map, span_as_map,
  header_message, TrustHeaderSignature, signature, no_secret, sign_result, verified, trusts,
  sign_headers, verify_headers, sign_edge_context_header, sign_span_headers, trust_edge_context,
  trust_span, verify_edge_context_header,
}

module _ (hmac : Bytes → Bytes → Bytes) where
  -- Two handlers share a secret: a version that the one signs with is one that the other knows.
  pub record Shared (signer verifier : TrustHeaderSignature) (path path' : String) : Type 0 where
    pub theirs : VersionedSecret
    pub found : get_versioned_secret verifier.secrets path' ≡ Secrets.ok theirs
    pub known :
        (ours : VersionedSecret)
        → get_versioned_secret signer.secrets path ≡ Secrets.ok ours
        → Among ours.current (get_all theirs)

  abbrev args_of : Bytes → VersionedSecret → ℤ → SignArgs
  args_of message secret expires_in = record {
    message = message;
    secret = secret;
    expires_at = 0;
    expires_in = expires_in;
  }

  sign_headers-signature :
      (h : TrustHeaderSignature) (m : List (Bytes × Bytes)) (path : String) (expires_in : ℤ)
      (now : Instant) (sig : Bytes)
      → sign_headers hmac h m path expires_in now ≡ signature sig
      → (secret : VersionedSecret) × (get_versioned_secret h.secrets path ≡ Secrets.ok secret)
        × (sign hmac (args_of (header_message m) secret expires_in) now ≡ signed sig)
  unfolding sign_headers
  sign_headers-signature h m path expires_in now sig = go (get_versioned_secret h.secrets path)
    where
      of_signed : (s : Signed) → sign_result s ≡ signature sig → s ≡ signed sig
      of_signed (signed s) e = cc e
      of_signed (unsigned x) e = absurd (cc e)

      go :
          (r : Result VersionedSecret)
          → elim r [
            | Secrets.err e ↦ no_secret e
            | Secrets.ok secret ↦
                sign_result (sign hmac (args_of (header_message m) secret expires_in) now)
          ]
            ≡ signature sig
          → (secret : VersionedSecret) × (r ≡ Secrets.ok secret)
            × (sign hmac (args_of (header_message m) secret expires_in) now ≡ signed sig)
      go (Secrets.err x) e = absurd (cc e)
      go (Secrets.ok secret) e = (secret, refl, of_signed _ e)

  valid-not_empty :
      (message sig : Bytes) (secret : VersionedSecret) (now : Instant)
      → verify hmac message sig secret now ≡ valid
      → is_empty sig ≡ false
  unfolding verify decode
  valid-not_empty message [] secret now e = absurd (cc e)
  valid-not_empty message (c ∷ sig) secret now e = refl

  verify_headers-sign_headers :
      (ok : IsHmac hmac) (signer verifier : TrustHeaderSignature) (m : List (Bytes × Bytes))
      (path path' : String) (expires_in : ℤ) (now later : Instant) (sig : Bytes)
      → sign_headers hmac signer m path expires_in now ≡ signature sig
      → Shared signer verifier path path'
      → InRange (add_duration now expires_in)
      → later / second ≤ add_duration now expires_in / second
      → verify_headers hmac verifier m sig path' later ≡ verified
  unfolding verify_headers
  verify_headers-sign_headers ok signer verifier m path path' expires_in now later sig e shared
        range time =
      let (ours, found, made) = sign_headers-signature signer m path expires_in now sig e in
      let good : verify hmac (header_message m) sig shared.theirs later ≡ valid =
        (verify-sign hmac ok (args_of (header_message m) ours expires_in) now later sig
          shared.theirs made range time (shared.known ours found)).0 in
      rw (valid-not_empty (header_message m) sig shared.theirs later good, shared.found, good) refl

  -- A request is trusted with its span headers if the signature header holds what SignSpanHeaders
  -- returned for the same values, before the signature expires, and also by another service that has the
  -- secret in another state of its rotation.
  pub trust_span-sign_span_headers :
      (ok : IsHmac hmac) (signer verifier : TrustHeaderSignature) (headers : SpanHeaders)
      (request : Header) (expires_in : ℤ) (now later : Instant) (sig : Bytes)
      → sign_span_headers hmac signer headers expires_in now ≡ signature sig
      → Shared signer verifier signer.span_secret_path verifier.span_secret_path
      → new_span_headers request ≡ headers
      → get span_signature_header request ≡ sig
      → InRange (add_duration now expires_in)
      → later / second ≤ add_duration now expires_in / second
      → trust_span hmac verifier request later ≡ some true
  unfolding trust_span
  trust_span-sign_span_headers ok signer verifier headers request expires_in now later sig e shared
        h s range time =
      rw (h, s)
        (ap trusts (
          verify_headers-sign_headers ok signer verifier (span_as_map headers)
            signer.span_secret_path verifier.span_secret_path expires_in now later sig e shared
            range time))

  edge_context_read :
      (headers : EdgeContextHeaders) (request : Header)
      → All IsByte headers.edge_request
      → get edge_context_header request ≡ encode std_encoding headers.edge_request
      → new_edge_context_headers request ≡ some headers
  unfolding new_edge_context_headers
  edge_context_read headers request bytes h =
      ap (λ o. elim o [ none ↦ none | some ec ↦ some (record { edge_request = ec }) ])
        (ap (decode std_encoding) h
          ∙ decode-encode std_encoding-IsAlphabet headers.edge_request bytes)

  -- A request is trusted with its edge context if it carries it in base64 and the signature header holds
  -- what SignEdgeContextHeader returned for the bytes before encoding, before the signature expires, and
  -- also by another service that has the secret in another state of its rotation.
  pub trust_edge_context-sign_edge_context_header :
      (ok : IsHmac hmac) (signer verifier : TrustHeaderSignature) (headers : EdgeContextHeaders)
      (request : Header) (expires_in : ℤ) (now later : Instant) (sig : Bytes)
      → sign_edge_context_header hmac signer headers expires_in now ≡ signature sig
      → Shared signer verifier signer.edge_context_secret_path verifier.edge_context_secret_path
      → All IsByte headers.edge_request
      → get edge_context_header request ≡ encode std_encoding headers.edge_request
      → get edge_context_signature_header request ≡ sig
      → InRange (add_duration now expires_in)
      → later / second ≤ add_duration now expires_in / second
      → trust_edge_context hmac verifier request later ≡ some true
  unfolding trust_edge_context
  trust_edge_context-sign_edge_context_header ok signer verifier headers request expires_in now
        later sig e shared bytes h s range time =
      ap
        (λ o. elim o [
          | none ↦ some false
          | some found ↦ trusts (
              verify_edge_context_header hmac verifier found
                (get edge_context_signature_header request) later)
        ])
        (edge_context_read headers request bytes h)
      ∙ rw s (
          ap trusts (
            verify_headers-sign_headers ok signer verifier (edge_as_map headers)
              signer.edge_context_secret_path verifier.edge_context_secret_path expires_in now later
              sig e shared range time))
