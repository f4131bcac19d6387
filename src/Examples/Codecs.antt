-- ===== src/Examples/Codecs.antt =====
-- Examples of static/crypto.js: base64url texts and PEM blocks.
use mathlib.Core.List.{cons-ne-nil}
use key_bank.Base.{◌≡◌, refl, [], ◌∷◌, Text, Bytes, codes, ok, ◌>>=◌, arith}
use key_bank.Js.Base64
use key_bank.Crypto.Codec.{bytes_to_base64_url, base64_url_to_bytes}
use key_bank.Crypto.Codec.RoundTrip.{base64_url_to_bytes-bytes_to_base64_url}
use key_bank.Crypto.Pem.{pem_to_bytes}
use key_bank.Crypto.Pem.RoundTrip.{block, pem_to_bytes-encode}
use key_bank.Examples.Browser.{bytes-IsByte}
use key_bank.Examples.Checks.{without}

abbrev four_bytes : Bytes
four_bytes = 251 ∷ 255 ∷ 0 ∷ 7 ∷ []

base64_url_to_bytes-bytes_to_base64_url_example :
    (bytes_to_base64_url four_bytes 3 >>= base64_url_to_bytes) ≡ ok four_bytes
base64_url_to_bytes-bytes_to_base64_url_example =
    base64_url_to_bytes-bytes_to_base64_url four_bytes 3 (bytes-IsByte four_bytes refl)
      (cons-ne-nil _ _) (omega arith)

-- The text of the bytes, broken into two lines.
abbrev lines : Text
lines = b'\n' ∷ b'+' ∷ b'/' ∷ b'8' ∷ b'A' ∷ b'\n' ∷ b'B' ∷ b'w' ∷ b'=' ∷ b'=' ∷ b'\n' ∷ []

pem_to_bytes-encode_example :
    pem_to_bytes (block (codes "PUBLIC KEY") [] lines (b'\n' ∷ [])) (codes "PUBLIC KEY")
    ≡ ok four_bytes
unfolding codes Base64.encode Base64.keep Base64.sextets Base64.digit
pem_to_bytes-encode_example =
    pem_to_bytes-encode (codes "PUBLIC KEY") [] lines (b'\n' ∷ []) four_bytes
      (without b'-' (codes "PUBLIC KEY") refl) tt (without b'-' lines refl)
      (bytes-IsByte four_bytes refl) (cons-ne-nil _ _) refl
