-- ===== src/Std/Base64/RoundTrip.antt =====
-- Decoding after encoding, and the length of an encoded text (encoding/base64).
use baseplate_go.Common.{
  ◌≢◌, ℕ, ◌+◌, ◌*◌, ◌/◌, ◌%◌, ◌<◌, ◌≡◌, refl, ap, ◌∙◌, false, [], ◌∷◌, ◌++◌, Option, none, some,
  arith, Bytes, All, length, append-nil, ◌==◌,
}
use baseplate_go.Std.Base64.{
  Alphabet, std_encoding, url_encoding, padding, ◌>>=◌, digit, value, encode, last_quantum,
  full_quantum, append_some, decode_quanta, skip_newlines, decode, IsByte,
}

-- What the round trip needs of an alphabet.
pub record IsAlphabet (al : Alphabet) : Type 0 where
  pub reads : (n : ℕ) → n < 64 → value al (digit al n) ≡ some n
  pub pad : value al padding ≡ none
  pub plain : (n : ℕ) → (digit al n ≢ padding) × (digit al n ≢ b'\n') × (digit al n ≢ b'\r')

pub std_encoding-IsAlphabet : IsAlphabet std_encoding
unfolding value digit
std_encoding-IsAlphabet = record {
  reads = λ n h. ground arith;
  pad = refl;
  plain = λ n. ground arith;
}

pub url_encoding-IsAlphabet : IsAlphabet url_encoding
unfolding value digit
url_encoding-IsAlphabet = record {
  reads = λ n h. ground arith;
  pad = refl;
  plain = λ n. ground arith;
}

abbrev IsLine : Bytes → Type 0
IsLine = All (λ c. (c ≢ b'\n') × (c ≢ b'\r'))

skip_newlines_id : (s : Bytes) → IsLine s → skip_newlines s ≡ s
unfolding skip_newlines
skip_newlines_id [] h = refl
skip_newlines_id (c ∷ s) (h, hs) = ground (arith, skip_newlines_id s hs)

decode_quanta-step :
    (al : Alphabet) (w x y z : ℕ) (t r u : Bytes)
    → full_quantum al w x y z ≡ some t
    → decode_quanta al u ≡ some r
    → decode_quanta al (w ∷ x ∷ y ∷ z ∷ u) ≡ some (t ++ r)
unfolding decode_quanta append_some
decode_quanta-step al w x y z t r [] e f = rw (e, decode_quanta) (ground (arith, append-nil t))
decode_quanta-step al w x y z t r (v ∷ u) e f = rw (e, decode_quanta) (rw f)

decode_quanta-last :
    (al : Alphabet) (w x y z : ℕ) (t : Bytes)
    → full_quantum al w x y z ≡ none
    → last_quantum al w x y z ≡ some t
    → decode_quanta al (w ∷ x ∷ y ∷ z ∷ []) ≡ some t
unfolding decode_quanta
decode_quanta-last al w x y z t e f = rw (e, decode_quanta) f

pad_line : (padding ≢ b'\n') × (padding ≢ b'\r')
pad_line = ground arith

module _ {al : Alphabet} (good : IsAlphabet al) where
  line : (n : ℕ) → (digit al n ≢ b'\n') × (digit al n ≢ b'\r')
  line n = ((good.plain n).1, (good.plain n).2)

  encode-IsLine : (s : Bytes) → IsLine (encode al s)
  unfolding encode
  encode-IsLine [] = tt
  encode-IsLine (a ∷ []) = (line _, (line _, (pad_line, (pad_line, tt))))
  encode-IsLine (a ∷ b ∷ []) = (line _, (line _, (line _, (pad_line, tt))))
  encode-IsLine (a ∷ b ∷ c ∷ s) = (line _, (line _, (line _, (line _, encode-IsLine s))))

  full-digits :
      (k l m n : ℕ)
      → k < 64
      → l < 64
      → m < 64
      → n < 64
      → full_quantum al (digit al k) (digit al l) (digit al m) (digit al n)
        ≡ some ((k * 4 + l / 16) ∷ (l % 16 * 16 + m / 4) ∷ (m % 4 * 64 + n) ∷ [])
  unfolding full_quantum
  full-digits k l m n h1 h2 h3 h4 =
      rw (good.reads k h1, good.reads l h2, good.reads m h3, good.reads n h4)

  full-padded :
      (k l y : ℕ) → k < 64 → l < 64 → full_quantum al (digit al k) (digit al l) y padding ≡ none
  unfolding full_quantum
  full-padded k l y h1 h2 = rw (good.reads k h1, good.reads l h2) (go (value al y))
    where
      go :
          (o : Option ℕ)
          → (o >>= λ r. value al padding >>= λ t.
              some ((k * 4 + l / 16) ∷ (l % 16 * 16 + r / 4) ∷ (r % 4 * 64 + t) ∷ []))
            ≡ none
      go none = refl
      go (some r) = rw good.pad

  last-two :
      (k l : ℕ)
      → k < 64
      → l < 64
      → last_quantum al (digit al k) (digit al l) padding padding ≡ some ((k * 4 + l / 16) ∷ [])
  unfolding last_quantum
  last-two k l h1 h2 = rw (good.reads k h1, good.reads l h2)

  last-three :
      (k l m : ℕ)
      → k < 64
      → l < 64
      → m < 64
      → last_quantum al (digit al k) (digit al l) (digit al m) padding
        ≡ some ((k * 4 + l / 16) ∷ (l % 16 * 16 + m / 4) ∷ [])
  unfolding last_quantum
  last-three k l m h1 h2 h3 = rw (not-pad, good.reads k h1, good.reads l h2, good.reads m h3)
    where
      not-pad : (digit al m == padding) ≡ false
      not-pad = ground (arith, (good.plain m).0)

  decode_quanta-encode : (s : Bytes) → All IsByte s → decode_quanta al (encode al s) ≡ some s
  unfolding encode
  decode_quanta-encode [] h = unfold decode_quanta in refl
  decode_quanta-encode (a ∷ []) (ha, h) =
      decode_quanta-last al _ _ _ _ _
        (full-padded (a / 4) (a % 4 * 16) padding (omega arith) (omega arith))
        (last-two (a / 4) (a % 4 * 16) (omega arith) (omega arith) ∙ ground arith)
  decode_quanta-encode (a ∷ b ∷ []) (ha, (hb, h)) =
      decode_quanta-last al _ _ _ _ _
        (full-padded (a / 4) (a % 4 * 16 + b / 16) _ (omega arith) (omega arith))
        (last-three (a / 4) (a % 4 * 16 + b / 16) (b % 16 * 4) (omega arith) (omega arith)
            (omega arith)
          ∙ ground arith)
  decode_quanta-encode (a ∷ b ∷ c ∷ s) (ha, (hb, (hc, h))) =
      decode_quanta-step al _ _ _ _ (a ∷ b ∷ c ∷ []) s (encode al s)
        (full-digits (a / 4) (a % 4 * 16 + b / 16) (b % 16 * 4 + c / 64) (c % 64) (omega arith)
            (omega arith) (omega arith) (omega arith)
          ∙ ground arith)
        (decode_quanta-encode s h)

  -- DecodeString undoes EncodeToString on every byte string.
  pub decode-encode : (s : Bytes) → All IsByte s → decode al (encode al s) ≡ some s
  unfolding decode
  decode-encode s h =
      ap (decode_quanta al) (skip_newlines_id (encode al s) (encode-IsLine s))
      ∙ decode_quanta-encode s h

pub length-encode : (al : Alphabet) (s : Bytes) → length (encode al s) ≡ (length s + 2) / 3 * 4
unfolding encode
length-encode al [] = omega arith
length-encode al (a ∷ []) = omega arith
length-encode al (a ∷ b ∷ []) = omega arith
length-encode al (a ∷ b ∷ c ∷ s) = omega (arith, length-encode al s)
