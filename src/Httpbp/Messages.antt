-- ===== src/Httpbp/Messages.antt =====
-- The message that the signature of the span headers covers (headerMessage of httpbp/headers.go).
use baseplate_go.Common.{
  ◌≡◌, ◌≢◌, refl, ap, sym, ◌∙◌, List, [], ◌∷◌, ◌++◌, append_assoc, Bytes, codes, All, String,
  is_empty, if◌then◌else◌,
}
use baseplate_go.Secrets as Secrets
use baseplate_go.Secrets.{get_versioned_secret}
use baseplate_go.Signing.{verify}
use baseplate_go.Std.Instant.{Instant}
use baseplate_go.Httpbp.Headers.{
  SpanHeaders, span_as_map, header_message, sort_keys, join, TrustHeaderSignature,
  verify_span_headers, verify_headers, unverified, unknown_secret, verified_of,
}

abbrev from_trace : Bytes → Bytes
from_trace t = codes "X-Trace:" ++ t

abbrev from_span : (n t : Bytes) → Bytes
from_span n t = codes "X-Span:" ++ (n ++ b'|' ∷ from_trace t)

abbrev from_sampled : (s n t : Bytes) → Bytes
from_sampled s n t = codes "X-Sampled:" ++ (s ++ b'|' ∷ from_span n t)

abbrev from_parent : (p s n t : Bytes) → Bytes
from_parent p s n t = codes "X-Parent:" ++ (p ++ b'|' ∷ from_sampled s n t)

abbrev layout : (f p s n t : Bytes) → Bytes
layout f p s n t = codes "X-Flags:" ++ (f ++ b'|' ∷ from_parent p s n t)

message_layout :
    (h : SpanHeaders)
    → header_message (span_as_map h) ≡ layout h.flags h.parent_id h.sampled h.span_id h.trace_id
unfolding header_message sort_keys join
message_layout h = refl

-- No separator in a value.
abbrev pub IsPlain : Bytes → Type 0
IsPlain = All (λ c. c ≢ b'|')

split_at :
    (xs xs' ys ys' : Bytes)
    → IsPlain xs
    → IsPlain xs'
    → xs ++ b'|' ∷ ys ≡ xs' ++ b'|' ∷ ys'
    → (xs ≡ xs') × (ys ≡ ys')
split_at [] [] ys ys' p p' e = (refl, cc e)
split_at [] (x ∷ xs') ys ys' p (n, p') e = absurd (n (cc e))
split_at (x ∷ xs) [] ys ys' (n, p) p' e = absurd (n (cc e))
split_at (x ∷ xs) (x' ∷ xs') ys ys' (n, p) (n', p') e =
    let (f, g) = split_at xs xs' ys ys' p p' (cc e) in (cc (e, f), g)

cancel : (ks xs ys : Bytes) → ks ++ xs ≡ ks ++ ys → xs ≡ ys
cancel [] xs ys e = e
cancel (k ∷ ks) xs ys e = cancel ks xs ys (cc e)

layout_injective :
    (f p s n t f' p' s' n' t' : Bytes)
    → IsPlain f × IsPlain p × IsPlain s × IsPlain n
    → IsPlain f' × IsPlain p' × IsPlain s' × IsPlain n'
    → layout f p s n t ≡ layout f' p' s' n' t'
    → (f ≡ f') × (p ≡ p') × (s ≡ s') × (n ≡ n') × (t ≡ t')
layout_injective f p s n t f' p' s' n' t' (hf, hp, hs, hn) (hf', hp', hs', hn') e =
    let (ef, e1) =
      split_at f f' (from_parent p s n t) (from_parent p' s' n' t') hf hf'
        (cancel (codes "X-Flags:") _ _ e) in
    let (ep, e2) =
      split_at p p' (from_sampled s n t) (from_sampled s' n' t') hp hp'
        (cancel (codes "X-Parent:") _ _ e1) in
    let (es, e3) =
      split_at s s' (from_span n t) (from_span n' t') hs hs' (cancel (codes "X-Sampled:") _ _ e2) in
    let (en, e4) =
      split_at n n' (from_trace t) (from_trace t') hn hn' (cancel (codes "X-Span:") _ _ e3) in
    (ef, ep, es, en, cancel (codes "X-Trace:") t t' e4)

abbrev pub AllPlain : SpanHeaders → Type 0
AllPlain h = IsPlain h.flags × IsPlain h.parent_id × IsPlain h.sampled × IsPlain h.span_id

record_eq :
    (h h' : SpanHeaders)
    → h.flags ≡ h'.flags
    → h.parent_id ≡ h'.parent_id
    → h.sampled ≡ h'.sampled
    → h.span_id ≡ h'.span_id
    → h.trace_id ≡ h'.trace_id
    → h ≡ h'
record_eq h h' a b c d e = cc (a, b, c, d, e)

-- Span headers whose flags, parent, sampled and span values hold no `|` are determined by the message
-- that is signed.
pub span_message_injective :
    (h h' : SpanHeaders)
    → AllPlain h
    → AllPlain h'
    → header_message (span_as_map h) ≡ header_message (span_as_map h')
    → h ≡ h'
span_message_injective h h' p p' e =
    let (a, b, c, d, f) =
      layout_injective h.flags h.parent_id h.sampled h.span_id h.trace_id h'.flags h'.parent_id
        h'.sampled h'.span_id h'.trace_id p p' (sym (message_layout h) ∙ e ∙ message_layout h') in
    record_eq h h' a b c d f

verify_headers-message :
    (hmac : Bytes → Bytes → Bytes) (handler : TrustHeaderSignature) (m m' : List (Bytes × Bytes))
    (sig : Bytes) (path : String) (now : Instant)
    → header_message m ≡ header_message m'
    → verify_headers hmac handler m sig path now ≡ verify_headers hmac handler m' sig path now
unfolding verify_headers
verify_headers-message hmac handler m m' sig path now e =
    ap
      (λ message.
        if is_empty sig then unverified else elim (get_versioned_secret handler.secrets path) [
          | Secrets.err x ↦ unknown_secret x
          | Secrets.ok secret ↦ verified_of (verify hmac message sig secret now)
        ])
      e

-- With `|` in a value they are not: the boundary between the flags and the parent can be moved, and a
-- signature for the one pair of values is as good for the other.
pub span_message_ambiguous :
    (hmac : Bytes → Bytes → Bytes) (handler : TrustHeaderSignature) (a b c s n t sig : Bytes)
    (now : Instant)
    → verify_span_headers hmac handler
        (record {
          flags = a ++ (codes "|X-Parent:" ++ b);
          parent_id = c;
          sampled = s;
          span_id = n;
          trace_id = t;
        })
        sig
        now
      ≡ verify_span_headers hmac handler
          (record {
            flags = a;
            parent_id = b ++ (codes "|X-Parent:" ++ c);
            sampled = s;
            span_id = n;
            trace_id = t;
          })
          sig
          now
span_message_ambiguous hmac handler a b c s n t sig now =
    verify_headers-message hmac handler _ _ sig handler.span_secret_path now
      (message_layout _ ∙ moved ∙ sym (message_layout _))
  where
    moved :
        layout (a ++ (codes "|X-Parent:" ++ b)) c s n t
        ≡ layout a (b ++ (codes "|X-Parent:" ++ c)) s n t
    moved = simp append_assoc refl
