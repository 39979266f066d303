-- ===== src/Signing/Tests.antt =====
-- A small MAC in place of HMAC-SHA256, and the theorems of the signatures on it (signing/v1.go).
use baseplate_go.Common.{◌≡◌, refl, ◌+◌, ◌↔◌, [], some, Bytes, arith, ◌*◌, codes, inl, inr}
use baseplate_go.Common.Int.{pos}
use baseplate_go.Std.Base64.{url_encoding, digit, encode, decode}
use baseplate_go.Std.Instant.{Instant, epoch, second, unix32}
use baseplate_go.Secrets.{VersionedSecret, get_all}
use baseplate_go.Signing.{
  header, raw_signature, SignArgs, signed, sign, valid, crash, verify, verify_v1,
}
use baseplate_go.Signing.ToyMac.{mac, mac-IsHmac}
use baseplate_go.Signing.RoundTrip.{Among, verify-sign}
use baseplate_go.Signing.Soundness.{IsGood, verify_iff}
use baseplate_go.Signing.Failures.{verify_crash_iff}

abbrev now : Instant
now = (epoch + 1_600_000_000) * second

abbrev current_only : VersionedSecret
current_only = record { current = codes "key"; previous = []; next = [] }

-- After a rotation the key that signed is the previous one.
abbrev rotated : VersionedSecret
rotated = record { current = codes "new key"; previous = codes "key"; next = [] }

abbrev args : SignArgs
args = record {
  message = codes "hello";
  secret = current_only;
  expires_at = 0;
  expires_in = pos (60 * second);
}

abbrev signature : Bytes
signature =
    encode url_encoding
      (raw_signature mac (codes "key") (unix32 (now + 60 * second)) (codes "hello"))

args-signed : sign mac args now ≡ signed signature
unfolding sign
args-signed = refl

signature_is : signature ≡ codes "AQAAPBBeX25ubm5ubm5ubm5ubm5ubm5ubm5ubm5ubm5ubm5ubm5u"
unfolding encode header digit
signature_is = refl

rotated-Among : Among (codes "key") (get_all rotated)
unfolding get_all
rotated-Among = inr (inl refl)

verify-sign_example :
    (verify mac (codes "hello") signature rotated (now + 5 * second) ≡ valid)
    × (verify_v1 mac (codes "hello") signature rotated (now + 5 * second) ≡ valid)
verify-sign_example =
    verify-sign mac mac-IsHmac args now (now + 5 * second) signature rotated args-signed
      (omega arith, omega arith) (omega arith) rotated-Among

verify_iff_example : (verify mac (codes "hello") signature rotated now ≡ valid) ↔ (
    (raw : Bytes) × (decode url_encoding signature ≡ some raw)
    × IsGood mac (codes "hello") raw (get_all rotated) now)
verify_iff_example = verify_iff mac (codes "hello") signature rotated now

verify_crash_iff_example :
    (verify mac (codes "hello") [] rotated now ≡ crash) ↔ (decode url_encoding [] ≡ some [])
verify_crash_iff_example = verify_crash_iff mac (codes "hello") [] rotated now

-- 2 ^ 32 seconds after the epoch.
abbrev far : SignArgs
far = record args { expires_at = (epoch + 4_294_967_300) * second }

abbrev far_signature : Bytes
far_signature =
    encode url_encoding (raw_signature mac (codes "key") (unix32 far.expires_at) (codes "hello"))
