-- ===== src/Std/Base64.antt =====
-- encoding/base64: EncodeToString and DecodeString with padding, over the standard or the URL
-- alphabet. The decoder skips carriage returns and line feeds.
pub mod RoundTrip
use baseplate_go.Common.{
  ◌≢◌, ℕ, zero, suc, ◌+◌, ◌-◌, ◌*◌, ◌/◌, ◌%◌, ◌<◌, ◌≤◌, ◌≡◌, refl, sym, ap, Bool, true, false, ◌&&◌,
  ◌||◌, List, [], ◌∷◌, ◌++◌, Option, none, some, ltb, leb, ◌==◌, if◌then◌else◌, arith, Bytes, All,
  length, codes,
}

-- The two characters in which the alphabets differ.
pub record Alphabet : Type 0 where
  pub char62 : ℕ
  pub char63 : ℕ

abbrev pub std_encoding : Alphabet
std_encoding = record { char62 = b'+'; char63 = b'/' }

abbrev pub url_encoding : Alphabet
url_encoding = record { char62 = b'-'; char63 = b'_' }

abbrev pub padding : ℕ
padding = b'='

unfoldable pub digit : Alphabet → ℕ → ℕ
digit al n =
    if ltb n 26
    then b'A' + n
    else if ltb n 52
    then b'a' + (n - 26)
    else if ltb n 62
    then b'0' + (n - 52)
    else if n == 62
    then al.char62
    else al.char63

unfoldable pub value : Alphabet → ℕ → Option ℕ
value al c =
    if leb b'A' c && leb c b'Z'
    then some (c - b'A')
    else if leb b'a' c && leb c b'z'
    then some (c - b'a' + 26)
    else if leb b'0' c && leb c b'9'
    then some (c - b'0' + 52)
    else if c == al.char62
    then some 62
    else if c == al.char63
    then some 63
    else none

unfoldable pub encode : Alphabet → Bytes → Bytes
encode al [] = []
encode al (a ∷ []) = digit al (a / 4) ∷ digit al (a % 4 * 16) ∷ padding ∷ padding ∷ []
encode al (a ∷ b ∷ []) =
    digit al (a / 4) ∷ digit al (a % 4 * 16 + b / 16) ∷ digit al (b % 16 * 4) ∷ padding ∷ []
encode al (a ∷ b ∷ c ∷ s) =
    digit al (a / 4)
    ∷ digit al (a % 4 * 16 + b / 16)
    ∷ digit al (b % 16 * 4 + c / 64)
    ∷ digit al (c % 64)
    ∷ encode al s

infixl 5 ◌>>=◌
abbrev pub ◌>>=◌ {ℓ κ} : {A : Type ℓ} {B : Type κ} → Option A → (A → Option B) → Option B
none >>= f = none
some a >>= f = f a

-- The last quantum, with one or two padding characters; bits that are left over are dropped.
unfoldable pub last_quantum : Alphabet → ℕ → ℕ → ℕ → ℕ → Option Bytes
unfolding value
last_quantum al w x y z =
    if y == padding
    then (if z == padding then two else none)
    else if z == padding
    then three
    else none
  where
    two : Option Bytes
    two = do p ← value al w; q ← value al x; some ((p * 4 + q / 16) ∷ [])

    three : Option Bytes
    three = do
      p ← value al w
      q ← value al x
      r ← value al y
      some ((p * 4 + q / 16) ∷ (q % 16 * 16 + r / 4) ∷ [])

unfoldable pub full_quantum : Alphabet → ℕ → ℕ → ℕ → ℕ → Option Bytes
unfolding value
full_quantum al w x y z = do
  p ← value al w
  q ← value al x
  r ← value al y
  t ← value al z
  some ((p * 4 + q / 16) ∷ (q % 16 * 16 + r / 4) ∷ (r % 4 * 64 + t) ∷ [])

unfoldable pub append_some : Bytes → Option Bytes → Option Bytes
append_some s none = none
append_some s (some t) = some (s ++ t)

-- After a full quantum the rest; padding may only end the text.
unfoldable pub decode_quanta : Alphabet → Bytes → Option Bytes
decode_quanta al [] = some []
decode_quanta al (w ∷ []) = none
decode_quanta al (w ∷ x ∷ []) = none
decode_quanta al (w ∷ x ∷ y ∷ []) = none
decode_quanta al (w ∷ x ∷ y ∷ z ∷ []) = elim (full_quantum al w x y z) [
  | some s ↦ some s
  | none ↦ last_quantum al w x y z
]
decode_quanta al (w ∷ x ∷ y ∷ z ∷ v ∷ s) =
    let rest = decode_quanta al (v ∷ s) in
    elim (full_quantum al w x y z) [ some t ↦ append_some t rest | none ↦ none ]

unfoldable pub skip_newlines : Bytes → Bytes
skip_newlines [] = []
skip_newlines (c ∷ s) = if c == b'\n' || c == b'\r' then skip_newlines s else c ∷ skip_newlines s

unfoldable pub decode : Alphabet → Bytes → Option Bytes
unfolding decode_quanta skip_newlines last_quantum full_quantum append_some
decode al s = decode_quanta al (skip_newlines s)

abbrev pub IsByte : ℕ → Type 0
IsByte b = b < 256

hello : decode url_encoding (encode url_encoding (codes "hello")) ≡ some (codes "hello")
unfolding encode digit decode
hello = refl

known : encode std_encoding (codes "Man, ") ≡ codes "TWFuLCA="
unfolding encode digit
known = refl
