-- ===== src/Crypto/Codec/Malformed.antt =====
-- Texts of base64url characters and an impossible length: one digit is left over.
use key_bank.Base.{suc, ◌%◌, ◌≡◌, refl, ap, [], ◌∷◌, true, Text, length, All, arith}
use key_bank.Js.Base64.{invalid_character}
use key_bank.Js.Base64.RoundTrip.{IsKept}
use key_bank.Js.Base64.Malformed.{atob_left_over}
use key_bank.Crypto.Codec.{is_base64_url, replace_char, base64_to_bytes, pad_length}

abbrev pub normalized : Text → Text
normalized t = replace_char b'_' b'/' (replace_char b'-' b'+' t)

length-normalized : (t : Text) → length (normalized t) ≡ length t
length-normalized [] = refl
length-normalized (c ∷ t) = ap suc (length-normalized t)

normalized-IsKept : (t : Text) → All (λ c. is_base64_url c ≡ true) t → All IsKept (normalized t)
normalized-IsKept [] h = tt
normalized-IsKept (c ∷ t) (hc, h) = (ground arith, normalized-IsKept t h)

three_missing : (t : Text) → length t % 4 ≡ 1 → pad_length (normalized t) ≡ 3
three_missing t one = ground (arith, length-normalized t)

pub base64_to_bytes_left_over :
    (t : Text)
    → All (λ c. is_base64_url c ≡ true) t
    → length t % 4 ≡ 1
    → base64_to_bytes t ≡ invalid_character
unfolding base64_to_bytes
base64_to_bytes_left_over t h one =
    rw
      (
        three_missing t one,
        atob_left_over (normalized t) (normalized-IsKept t h) (rw (length-normalized t) one),
      )
      refl
