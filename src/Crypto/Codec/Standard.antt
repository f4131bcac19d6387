-- ===== src/Crypto/Codec/Standard.antt =====
-- Texts in the standard alphabet, with padding, as PEM blocks hold them.
use mathlib.Core.List.{cons-ne-nil}
use key_bank.Base.{
  ℕ, zero, suc, ◌%◌, ◌<◌, ◌≡◌, ◌≢◌, refl, ap, List, [], ◌∷◌, ◌++◌, map, append-nil, Text, Bytes, ok,
  length, length-append, length-replicate, replicate, All, arith,
}
use key_bank.Js.Base64
use key_bank.Js.Base64.{sextets, digit, padding}
use key_bank.Js.Base64.RoundTrip.{
  IsByte, IsSextet, sextets-IsSextet, length-sextets, length-digits, atob-encode,
}
use key_bank.Crypto.Codec.{replace_char, pad_length, base64_to_bytes}
use key_bank.Crypto.Codec.RoundTrip.{to_uint8_bytes}

standard_digit : (n : ℕ) → n < 64 → (digit n ≢ b'-') × (digit n ≢ b'_')
unfolding digit
standard_digit n h = ground arith

standard_digits :
    (ns : List ℕ) (k : ℕ)
    → All IsSextet ns
    → replace_char b'_' b'/' (replace_char b'-' b'+' (map digit ns ++ replicate k b'='))
      ≡ map digit ns ++ replicate k b'='
standard_digits [] zero h = refl
standard_digits [] (suc k) h = ap (λ l. b'=' ∷ l) (standard_digits [] k h)
standard_digits (n ∷ ns) k (hn, h) = ground (arith, standard_digit n hn, standard_digits ns k h)

pad_length_whole : (t : Text) → length t % 4 ≡ 0 → pad_length t ≡ 0
pad_length_whole t h = ground arith

length-encode : (bs : Bytes) → length (Base64.encode bs) % 4 ≡ 0
unfolding Base64.encode
length-encode bs = omega (
  arith,
  length-append {0} (map digit (sextets bs)) (replicate (padding (length bs)) b'='),
  length-replicate {A = ℕ} (padding (length bs)) b'=',
  length-digits (sextets bs),
  length-sextets bs,
)

-- The standard alphabet with padding is read too.
pub base64_to_bytes-encode :
    (bs : Bytes) → All IsByte bs → base64_to_bytes (Base64.encode bs) ≡ ok bs
unfolding base64_to_bytes
base64_to_bytes-encode bs h =
    let same : replace_char b'_' b'/' (replace_char b'-' b'+' (Base64.encode bs))
        ≡ Base64.encode bs =
      unfold Base64.encode in
      standard_digits (sextets bs) (padding (length bs)) (sextets-IsSextet bs h) in
    rw (same, pad_length_whole _ (length-encode bs), append-nil, atob-encode bs h)
      (ap ok (to_uint8_bytes bs h))

pub encode-ne-nil : (bs : Bytes) → bs ≢ [] → Base64.encode bs ≢ []
unfolding Base64.encode sextets
encode-ne-nil [] h = absurd (h refl)
encode-ne-nil (a ∷ []) h = cons-ne-nil _ _
encode-ne-nil (a ∷ b ∷ []) h = cons-ne-nil _ _
encode-ne-nil (a ∷ b ∷ c ∷ r) h = cons-ne-nil _ _
