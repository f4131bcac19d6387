-- ===== src/Link/Malformed.antt =====
-- A limit of the check in `parseFragment`: it looks at the characters of a value, not at its length. A
-- ciphertext cut to an impossible length passes, and can only fail once the key has been fetched.
use mathlib.Core.Bool.{and-eq-true_iff}
use key_bank.Base.{◌%◌, ◌≡◌, ◌≢◌, true, [], ◌∷◌, Text, ok, length, All, all, arith}
use key_bank.Js.Base64.{invalid_character}
use key_bank.Crypto.Codec.{is_base64_url, base64_url_pattern, base64_url_to_bytes}
use key_bank.Crypto.Codec.Malformed.{base64_to_bytes_left_over}
use key_bank.Crypto.Web.{WebCrypto}
use key_bank.Crypto.Message.{Encrypted, decrypt_message}
use key_bank.Link.{fragment_of, parse_fragment}
use key_bank.Link.Fragment.{IsWellFormed, parse_fragment-fragment_of}

All_of_all : (t : Text) → all is_base64_url t ≡ true → All (λ c. is_base64_url c ≡ true) t
All_of_all [] h = tt
All_of_all (c ∷ t) h = let (hc, ht) = (and-eq-true_iff _ _).0 h in (hc, All_of_all t ht)

All_of_pattern : (t : Text) → base64_url_pattern t ≡ true → All (λ c. is_base64_url c ≡ true) t
unfolding base64_url_pattern
All_of_pattern [] h = tt
All_of_pattern (c ∷ t) h = All_of_all (c ∷ t) h

left_over :
    (t : Text)
    → base64_url_pattern t ≡ true
    → length t % 4 ≡ 1
    → base64_url_to_bytes t ≡ invalid_character
unfolding base64_url_to_bytes
left_over t h one = rw h (base64_to_bytes_left_over t (All_of_pattern t h) one)

never_decrypts :
    (c : WebCrypto) (priv_pem wrapped iv ct plaintext : Text)
    → base64_url_to_bytes ct ≡ invalid_character
    → decrypt_message c priv_pem wrapped iv ct ≢ ok plaintext
unfolding decrypt_message
never_decrypts c priv_pem wrapped iv ct plaintext bad h = ground arith

-- A fragment of base64url texts whose ciphertext has a length of 1 modulo 4 is accepted as well
-- formed, and yet no private key decrypts it.
pub parse_fragment_accepts_left_over :
    (c : WebCrypto) (e : Encrypted)
    → IsWellFormed e
    → length e.ct % 4 ≡ 1
    → (parse_fragment (b'#' ∷ fragment_of e) ≡ ok e)
      × ((priv_pem plaintext : Text)
          → decrypt_message c priv_pem e.wrapped e.iv e.ct ≢ ok plaintext)
parse_fragment_accepts_left_over c e h one = (
  parse_fragment-fragment_of e h,
  λ priv_pem plaintext.
      never_decrypts c priv_pem e.wrapped e.iv e.ct plaintext (left_over e.ct h.ct_ok one),
)
