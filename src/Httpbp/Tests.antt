-- ===== src/Httpbp/Tests.antt =====
-- Requests with signed headers, and the theorems on them (httpbp/headers.go).
use baseplate_go.Common.{
  ◌≡◌, refl, ◌+◌, ◌*◌, List, [], ◌∷◌, some, true, Bytes, codes, arith, inl, inr, bytes_eq, lookup,
}
use baseplate_go.Common.Int.{pos}
use baseplate_go.Std.Base64.{url_encoding, encode, digit}
use baseplate_go.Std.Instant.{Instant, epoch, second, unix32}
use baseplate_go.Secrets as Secrets
use baseplate_go.Secrets.{VersionedSecret, get_versioned_secret, get_all}
use baseplate_go.Signing.{sign, raw_signature}
use baseplate_go.Signing.ToyMac.{mac, mac-IsHmac}
use baseplate_go.Httpbp.Headers.{
  Header, get, SpanHeaders, EdgeContextHeaders, TrustHeaderSignature, signature, sign_headers,
  sign_span_headers, sign_edge_context_header, span_as_map, edge_as_map, header_message,
  new_span_headers, trust_span, trust_edge_context, verify_span_headers, sort_keys, join,
}
use baseplate_go.Httpbp.Trust.{
  Shared, trust_span-sign_span_headers, trust_edge_context-sign_edge_context_header,
}
use baseplate_go.Httpbp.Messages.{span_message_injective, span_message_ambiguous}

abbrev now : Instant
now = (epoch + 1_600_000_000) * second

abbrev store : VersionedSecret → Secrets.Secrets
store v = record {
  simple_secrets = [];
  versioned_secrets = ("key", v) ∷ [];
  credential_secrets = [];
  vault = record { url = []; token = [] };
}

abbrev handler : VersionedSecret → TrustHeaderSignature
handler v = record { secrets = store v; edge_context_secret_path = "key"; span_secret_path = "key" }

abbrev signer : TrustHeaderSignature
signer = handler (record { current = codes "old"; previous = []; next = [] })

abbrev rotated : VersionedSecret
rotated = record { current = codes "new"; previous = codes "old"; next = [] }

rotated-Shared : Shared mac signer (handler rotated) "key" "key"
unfolding get_versioned_secret lookup get_all
rotated-Shared = record { theirs = rotated; found = refl; known = λ ours e. inr (inl (cc e)) }

abbrev span : SpanHeaders
span = record {
  trace_id = codes "1";
  parent_id = codes "2";
  span_id = codes "3";
  flags = codes "0";
  sampled = codes "1";
}

span_message :
    header_message (span_as_map span) ≡ codes "X-Flags:0|X-Parent:2|X-Sampled:1|X-Span:3|X-Trace:1"
unfolding header_message sort_keys join
span_message = refl

abbrev signed_with : List (Bytes × Bytes) → Bytes
signed_with m =
    encode url_encoding
      (raw_signature mac (codes "old") (unix32 (now + 60 * second)) (header_message m))

span-signed :
    sign_span_headers mac signer span (pos (60 * second)) now
    ≡ signature (signed_with (span_as_map span))
unfolding sign_headers get_versioned_secret lookup sign
span-signed = refl

abbrev request : Header
request =
    (codes "X-Trace", codes "1")
    ∷ (codes "X-Parent", codes "2")
    ∷ (codes "X-Span", codes "3")
    ∷ (codes "X-Flags", codes "0")
    ∷ (codes "X-Sampled", codes "1")
    ∷ (codes "X-Span-Signature", signed_with (span_as_map span))
    ∷ []

trust_span-sign_span_headers_example :
    trust_span mac (handler rotated) request (now + 5 * second) ≡ some true
unfolding new_span_headers get bytes_eq
trust_span-sign_span_headers_example =
    trust_span-sign_span_headers mac mac-IsHmac signer (handler rotated) span request
      (pos (60 * second)) now (now + 5 * second) (signed_with (span_as_map span)) span-signed
      rotated-Shared refl refl (omega arith, omega arith) (omega arith)

abbrev context : EdgeContextHeaders
context = record { edge_request = codes "user" }

context-signed :
    sign_edge_context_header mac signer context (pos (60 * second)) now
    ≡ signature (signed_with (edge_as_map context))
unfolding sign_headers get_versioned_secret lookup sign
context-signed = refl

abbrev edge_request : Header
edge_request =
    (codes "X-Edge-Request", codes "dXNlcg==")
    ∷ (codes "X-Edge-Request-Signature", signed_with (edge_as_map context))
    ∷ []

trust_edge_context-sign_edge_context_header_case :
    trust_edge_context mac (handler rotated) edge_request (now + 5 * second) ≡ some true
unfolding get bytes_eq encode digit
trust_edge_context-sign_edge_context_header_case =
    trust_edge_context-sign_edge_context_header mac mac-IsHmac signer (handler rotated) context
      edge_request (pos (60 * second)) now (now + 5 * second) (signed_with (edge_as_map context))
      context-signed rotated-Shared (omega arith) refl refl (omega arith, omega arith) (omega arith)

span_message_injective_example : span ≡ span
span_message_injective_example = span_message_injective span span (omega arith) (omega arith) refl

span_message_ambiguous_case :
    verify_span_headers mac signer
      (record {
        flags = codes "0|X-Parent:2";
        parent_id = codes "7";
        sampled = codes "1";
        span_id = codes "3";
        trace_id = codes "1";
      })
      (codes "AQAA")
      now
    ≡ verify_span_headers mac signer
        (record {
          flags = codes "0";
          parent_id = codes "2|X-Parent:7";
          sampled = codes "1";
          span_id = codes "3";
          trace_id = codes "1";
        })
        (codes "AQAA")
        now
span_message_ambiguous_case =
    span_message_ambiguous mac signer (codes "0") (codes "2") (codes "7") (codes "1") (codes "3")
      (codes "1") (codes "AQAA") now
