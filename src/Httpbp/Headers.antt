-- ===== src/Httpbp/Headers.antt =====
-- httpbp/headers.go: the headers of a span and of an edge context, and the handlers that sign and verify
-- them. http.Header is the association list of canonical names to first values. HMAC-SHA256 is a
-- parameter, and the clock an argument, as in the signatures.
use baseplate_go.Common.{
  ℕ, Bool, true, false, List, [], ◌∷◌, ◌++◌, map, Option, none, some, Bytes, bytes_eq, codes,
  is_empty, String, ltb, ◌==◌, if◌then◌else◌,
}
use baseplate_go.Common.Int.{ℤ}
use baseplate_go.Std.Base64.{std_encoding, encode, decode}
use baseplate_go.Std.Instant.{Instant}
use baseplate_go.Secrets as Secrets
use baseplate_go.Secrets.{VersionedSecret, get_versioned_secret, Result}
use baseplate_go.Signing.{
  Signed, signed, unsigned, SignError, Verdict, valid, invalid, crash, sign, verify,
}

abbrev pub Header : Type 0
Header = List (Bytes × Bytes)

-- h.Get(name), the empty text for a name that is not set.
unfoldable pub get : Bytes → Header → Bytes
get name [] = []
get name ((n, v) ∷ h) = let later = get name h in if bytes_eq n name then v else later

-- The names.
abbrev pub edge_context_header : Bytes
edge_context_header = codes "X-Edge-Request"

abbrev pub edge_context_signature_header : Bytes
edge_context_signature_header = codes "X-Edge-Request-Signature"

abbrev pub parent_id_header : Bytes
parent_id_header = codes "X-Parent"

abbrev pub span_id_header : Bytes
span_id_header = codes "X-Span"

abbrev pub span_flags_header : Bytes
span_flags_header = codes "X-Flags"

abbrev pub span_sampled_header : Bytes
span_sampled_header = codes "X-Sampled"

abbrev pub span_signature_header : Bytes
span_signature_header = codes "X-Span-Signature"

abbrev pub trace_id_header : Bytes
trace_id_header = codes "X-Trace"

pub record EdgeContextHeaders : Type 0 where
  pub edge_request : Bytes

pub record SpanHeaders : Type 0 where
  pub trace_id : Bytes
  pub parent_id : Bytes
  pub span_id : Bytes
  pub flags : Bytes
  pub sampled : Bytes

abbrev pub encode_edge_context_header : Bytes → Bytes
encode_edge_context_header raw = encode std_encoding raw

abbrev pub decode_edge_context_header : Bytes → Option Bytes
decode_edge_context_header s = decode std_encoding s

-- `none` is the error of the decoding.
unfoldable pub new_edge_context_headers : Header → Option EdgeContextHeaders
new_edge_context_headers h = elim (decode_edge_context_header (get edge_context_header h)) [
  | none ↦ none
  | some ec ↦ some (record { edge_request = ec })
]

unfoldable pub new_span_headers : Header → SpanHeaders
new_span_headers h = record {
  trace_id = get trace_id_header h;
  parent_id = get parent_id_header h;
  span_id = get span_id_header h;
  flags = get span_flags_header h;
  sampled = get span_sampled_header h;
}

-- AsMap, in the order of the source; the map has no order.
abbrev pub edge_as_map : EdgeContextHeaders → List (Bytes × Bytes)
edge_as_map s = (edge_context_header, s.edge_request) ∷ []

abbrev pub span_as_map : SpanHeaders → List (Bytes × Bytes)
span_as_map s =
    (trace_id_header, s.trace_id)
    ∷ (parent_id_header, s.parent_id)
    ∷ (span_id_header, s.span_id)
    ∷ (span_flags_header, s.flags)
    ∷ (span_sampled_header, s.sampled)
    ∷ []

-- The order of sort.Strings.
unfoldable pub before_text : Bytes → Bytes → Bool
before_text [] [] = false
before_text [] (y ∷ ys) = true
before_text (x ∷ xs) [] = false
before_text (x ∷ xs) (y ∷ ys) =
    let rest = before_text xs ys in if ltb x y then true else if x == y then rest else false

insert_key : Bytes × Bytes → List (Bytes × Bytes) → List (Bytes × Bytes)
insert_key e [] = e ∷ []
insert_key (k, v) ((j, w) ∷ m) =
    let rest = insert_key (k, v) m in if before_text j k then (j, w) ∷ rest else (k, v) ∷ (j, w) ∷ m

unfoldable pub sort_keys : List (Bytes × Bytes) → List (Bytes × Bytes)
unfolding insert_key before_text
sort_keys [] = []
sort_keys (e ∷ m) = insert_key e (sort_keys m)

abbrev pub component : Bytes × Bytes → Bytes
component (k, v) = k ++ b':' ∷ v

-- strings.Join
unfoldable pub join : ℕ → List Bytes → Bytes
join sep [] = []
join sep (s ∷ []) = s
join sep (s ∷ t ∷ ss) = s ++ sep ∷ join sep (t ∷ ss)

unfoldable pub header_message : List (Bytes × Bytes) → Bytes
header_message m = join b'|' (map component (sort_keys m))

pub record TrustHeaderSignature : Type 0 where
  pub secrets : Secrets.Secrets
  pub edge_context_secret_path : String
  pub span_secret_path : String

pub data SignResult : Type 0 where
  signature : Bytes → SignResult
  no_secret : Secrets.Error → SignResult
  not_signed : SignError → SignResult

abbrev pub sign_result : Signed → SignResult
sign_result (signed s) = signature s
sign_result (unsigned e) = not_signed e

-- The results of verifyHeaders: true or false without an error, and false with the two errors.
pub data Verified : Type 0 where
  verified unverified failed crashed : Verified
  unknown_secret : Secrets.Error → Verified

abbrev pub verified_of : Verdict → Verified
verified_of valid = verified
verified_of (invalid e) = failed
verified_of crash = crashed

-- A handler answers false on an error; `none` is a panic.
abbrev pub trusts : Verified → Option Bool
trusts verified = some true
trusts crashed = none
trusts _ = some false

module _ (hmac : Bytes → Bytes → Bytes) where
  unfoldable pub sign_headers :
      TrustHeaderSignature → List (Bytes × Bytes) → String → ℤ → Instant → SignResult
  sign_headers h headers path expires_in now = elim (get_versioned_secret h.secrets path) [
    | Secrets.err e ↦ no_secret e
    | Secrets.ok secret ↦ sign_result (
        sign hmac
          (record {
            message = header_message headers;
            secret = secret;
            expires_at = 0;
            expires_in = expires_in;
          })
          now)
  ]

  unfoldable pub verify_headers :
      TrustHeaderSignature → List (Bytes × Bytes) → Bytes → String → Instant → Verified
  verify_headers h headers sig path now =
      if is_empty sig then unverified else elim (get_versioned_secret h.secrets path) [
        | Secrets.err e ↦ unknown_secret e
        | Secrets.ok secret ↦ verified_of (verify hmac (header_message headers) sig secret now)
      ]

  abbrev pub sign_edge_context_header :
      TrustHeaderSignature → EdgeContextHeaders → ℤ → Instant → SignResult
  sign_edge_context_header h headers =
      sign_headers h (edge_as_map headers) h.edge_context_secret_path

  abbrev pub verify_edge_context_header :
      TrustHeaderSignature → EdgeContextHeaders → Bytes → Instant → Verified
  verify_edge_context_header h headers sig =
      verify_headers h (edge_as_map headers) sig h.edge_context_secret_path

  abbrev pub sign_span_headers : TrustHeaderSignature → SpanHeaders → ℤ → Instant → SignResult
  sign_span_headers h headers = sign_headers h (span_as_map headers) h.span_secret_path

  abbrev pub verify_span_headers : TrustHeaderSignature → SpanHeaders → Bytes → Instant → Verified
  verify_span_headers h headers sig = verify_headers h (span_as_map headers) sig h.span_secret_path

  unfoldable pub trust_edge_context : TrustHeaderSignature → Header → Instant → Option Bool
  trust_edge_context h request now = elim (new_edge_context_headers request) [
    | none ↦ some false
    | some headers ↦
        trusts
          (verify_edge_context_header h headers (get edge_context_signature_header request) now)
  ]

  unfoldable pub trust_span : TrustHeaderSignature → Header → Instant → Option Bool
  trust_span h request now =
      trusts
        (verify_span_headers h (new_span_headers request) (get span_signature_header request) now)
