-- ===== src/Crypto/Codec/RoundTrip.antt =====
-- base64url texts: which text bytes have, and that it is read back.
use key_bank.Base.{
  ℕ, zero, suc, ◌+◌, ◌*◌, ◌/◌, ◌%◌, ◌<◌, ◌≡◌, ◌≢◌, refl, ap, ◌∙◌, List, [], ◌∷◌, ◌++◌, map, true,
  Text, Bytes, ok, ◌>>=◌, length, replicate, All, all, arith, ne→==, if◌then◌else◌, ◌==◌,
}
use mathlib.Core.List.{map-append, cons-ne-nil}
use key_bank.Js.Base64
use key_bank.Js.Base64.{sextets, digit, atob, unsextets, padding}
use key_bank.Js.Base64.RoundTrip.{
  IsByte, IsSextet, sextets-IsSextet, unsextets-sextets, length-sextets, atob-digits, length-digits,
}
use key_bank.Crypto.Codec.{
  is_base64_url, base64_url_pattern, replace_char, to_uint8, pad_length, base64_to_bytes,
  strip_before, strip_equals, bytes_to_base64_url, base64_url_to_bytes,
}
use key_bank.Crypto.Codec.Chunks.{bytes_to_base64_lem}

-- The digit `n` of a base64url text.
unfoldable pub url_digit : ℕ → ℕ
unfolding digit
url_digit n = if digit n == b'+' then b'-' else if digit n == b'/' then b'_' else digit n

-- The base64url text of bytes, as the links hold it: no padding.
pub url_text : Bytes → Text
url_text bs = map url_digit (sextets bs)

url_digit_lem : (n : ℕ) → n < 64 → (is_base64_url (url_digit n) ≡ true) × (url_digit n ≢ b'=')
unfolding url_digit
url_digit_lem n h = ground arith

to_url :
    (ns : List ℕ)
    → All IsSextet ns
    → replace_char b'/' b'_' (replace_char b'+' b'-' (map digit ns)) ≡ map url_digit ns
unfolding url_digit
to_url [] h = refl
to_url (n ∷ ns) (hn, h) = ground (arith, to_url ns h)

from_url :
    (ns : List ℕ)
    → All IsSextet ns
    → replace_char b'_' b'/' (replace_char b'-' b'+' (map url_digit ns)) ≡ map digit ns
unfolding url_digit
from_url [] h = refl
from_url (n ∷ ns) (hn, h) = ground (arith, from_url ns h)

map_url-IsBase64Url :
    (ns : List ℕ) → All IsSextet ns → All (λ c. is_base64_url c ≡ true) (map url_digit ns)
map_url-IsBase64Url [] h = tt
map_url-IsBase64Url (n ∷ ns) (hn, h) = ((url_digit_lem n hn).0, map_url-IsBase64Url ns h)

all_of_All : (t : Text) → All (λ c. is_base64_url c ≡ true) t → all is_base64_url t ≡ true
all_of_All [] h = refl
all_of_All (c ∷ t) (hc, h) = rw hc (all_of_All t h)

strip_before_plain : (c : ℕ) (t : Text) → c ≢ b'=' → strip_before c t ≡ c ∷ t
unfolding strip_before
strip_before_plain c [] h = rw (ne→== _ _ h) refl
strip_before_plain c (d ∷ t) h = refl

strip_equals_padding : (n : ℕ) → strip_equals (replicate n b'=') ≡ []
unfolding strip_equals
strip_equals_padding zero = refl
strip_equals_padding (suc n) = rw (strip_equals_padding n, strip_before) refl

strip_equals-cons : (c : ℕ) (t : Text) → c ≢ b'=' → strip_equals (c ∷ t) ≡ c ∷ strip_equals t
unfolding strip_equals
strip_equals-cons c t h = strip_before_plain c _ h

strip_equals-append :
    (t : Text) (n : ℕ) → All (λ c. c ≢ b'=') t → strip_equals (t ++ replicate n b'=') ≡ t
strip_equals-append [] n h = strip_equals_padding n
strip_equals-append (c ∷ t) n (hc, h) =
    strip_equals-cons c _ hc ∙ ap (λ l. c ∷ l) (strip_equals-append t n h)

url_digits_no_equals : (ns : List ℕ) → All IsSextet ns → All (λ c. c ≢ b'=') (map url_digit ns)
url_digits_no_equals [] h = tt
url_digits_no_equals (n ∷ ns) (hn, h) = ((url_digit_lem n hn).1, url_digits_no_equals ns h)

padding_to_url :
    (n : ℕ) → replace_char b'/' b'_' (replace_char b'+' b'-' (replicate n b'=')) ≡ replicate n b'='
padding_to_url zero = refl
padding_to_url (suc n) = ap (λ l. b'=' ∷ l) (padding_to_url n)

encode_to_url :
    (bs : Bytes)
    → All IsByte bs
    → strip_equals (replace_char b'/' b'_' (replace_char b'+' b'-' (Base64.encode bs)))
      ≡ url_text bs
unfolding Base64.encode url_text
encode_to_url bs h =
    let ns = sextets bs in
    rw
      (
        map-append,
        map-append,
        to_url ns (sextets-IsSextet bs h),
        padding_to_url (padding (length bs)),
      )
      (strip_equals-append (map url_digit ns) (padding (length bs))
        (url_digits_no_equals ns (sextets-IsSextet bs h)))

-- The text of bytes in a link, whatever the chunk size.
pub bytes_to_base64_url_lem :
    (bytes : Bytes) (chunk_size : ℕ)
    → All IsByte bytes
    → 0 < chunk_size
    → bytes_to_base64_url bytes chunk_size ≡ ok (url_text bytes)
unfolding bytes_to_base64_url
bytes_to_base64_url_lem bytes chunk_size h pos =
    rw (bytes_to_base64_lem bytes chunk_size h pos) (ap ok (encode_to_url bytes h))

pub to_uint8_bytes : (bs : Bytes) → All IsByte bs → to_uint8 bs ≡ bs
to_uint8_bytes [] h = refl
to_uint8_bytes (b ∷ bs) (hb, h) = ground (arith, to_uint8_bytes bs h)

length-map_url : (ns : List ℕ) → length (map url_digit ns) ≡ length ns
length-map_url [] = refl
length-map_url (n ∷ ns) = ap suc (length-map_url ns)

pub length-url_text : (bs : Bytes) → length (url_text bs) ≡ (length bs * 4 + 2) / 3
unfolding url_text
length-url_text bs = length-map_url (sextets bs) ∙ length-sextets bs

pad_length_small :
    (t : Text) → length t % 4 ≢ 1 → (pad_length t < 3) × ((length t + pad_length t) % 4 ≡ 0)
pad_length_small t h = ground arith

-- Digits without padding are read as the bytes that they spell.
pub base64_to_bytes_digits :
    (ns : List ℕ)
    → All IsSextet ns
    → length ns % 4 ≢ 1
    → base64_to_bytes (map url_digit ns) ≡ ok (to_uint8 (unsextets ns))
unfolding base64_to_bytes
base64_to_bytes_digits ns h full =
    let fits = pad_length_small (map digit ns) (rw (length-digits ns) full) in
    rw
      (
        from_url ns h,
        atob-digits ns (pad_length (map digit ns)) h fits.0 (rw (← length-digits ns) fits.1),
      )
      refl

pub base64_to_bytes-url_text : (bs : Bytes) → All IsByte bs → base64_to_bytes (url_text bs) ≡ ok bs
unfolding url_text
base64_to_bytes-url_text bs h =
    base64_to_bytes_digits (sextets bs) (sextets-IsSextet bs h) (omega (arith, length-sextets bs))
    ∙ ap ok (ap to_uint8 (unsextets-sextets bs h) ∙ to_uint8_bytes bs h)

base64_url_pattern_of_All :
    (t : Text) → t ≢ [] → All (λ c. is_base64_url c ≡ true) t → base64_url_pattern t ≡ true
unfolding base64_url_pattern
base64_url_pattern_of_All [] ne h = absurd (ne refl)
base64_url_pattern_of_All (c ∷ t) ne h = all_of_All (c ∷ t) h

pub url_text-ne-nil : (bs : Bytes) → bs ≢ [] → url_text bs ≢ []
unfolding url_text sextets
url_text-ne-nil [] h = absurd (h refl)
url_text-ne-nil (a ∷ []) h = cons-ne-nil _ _
url_text-ne-nil (a ∷ b ∷ []) h = cons-ne-nil _ _
url_text-ne-nil (a ∷ b ∷ c ∷ r) h = cons-ne-nil _ _

pub url_text-pattern :
    (bs : Bytes) → All IsByte bs → bs ≢ [] → base64_url_pattern (url_text bs) ≡ true
url_text-pattern bs h ne =
    base64_url_pattern_of_All (url_text bs) (url_text-ne-nil bs ne)
      (unfold url_text in map_url-IsBase64Url (sextets bs) (sextets-IsSextet bs h))

pub base64_url_to_bytes-url_text :
    (bs : Bytes) → All IsByte bs → bs ≢ [] → base64_url_to_bytes (url_text bs) ≡ ok bs
unfolding base64_url_to_bytes
base64_url_to_bytes-url_text bs h ne = rw (url_text-pattern bs h ne) (base64_to_bytes-url_text bs h)

-- Bytes, at least one, are read back from their base64url text, whatever chunk size above zero it was
-- made with.
pub base64_url_to_bytes-bytes_to_base64_url :
    (bytes : Bytes) (chunk_size : ℕ)
    → All IsByte bytes
    → bytes ≢ []
    → 0 < chunk_size
    → (bytes_to_base64_url bytes chunk_size >>= base64_url_to_bytes) ≡ ok bytes
base64_url_to_bytes-bytes_to_base64_url bytes chunk_size h ne pos =
    rw (bytes_to_base64_url_lem bytes chunk_size h pos) (base64_url_to_bytes-url_text bytes h ne)
