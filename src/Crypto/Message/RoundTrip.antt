-- ===== src/Crypto/Message/RoundTrip.antt =====
-- A note is decrypted to itself, with the other half of the key pair.
use mathlib.Core.List.{cons-ne-nil}
use key_bank.Base.{
  ℕ, suc, ◌∷◌, ◌+◌, ◌≡◌, ◌≢◌, refl, ap, ◌∙◌, List, [], Text, Bytes, ok, ◌>>=◌, length, All, arith,
}
use key_bank.Js.Utf8
use key_bank.Js.Utf8.{text_of, strip_mark}
use key_bank.Js.Utf8.RoundTrip.{IsScalar, decode-encode}
use key_bank.Crypto.Codec.Chunks.{chunk_size_pos}
use key_bank.Crypto.Codec.RoundTrip.{
  url_text, bytes_to_base64_url_lem, base64_url_to_bytes-url_text,
}
use key_bank.Crypto.Web.{WebCrypto, IsLawful}
use key_bank.Crypto.Message.{
  Encrypted, import_rsa_public_key, import_rsa_private_key, encrypt_message, decrypt_message,
}

pub ne_nil : (bs : Bytes) (n : ℕ) → length bs ≡ suc n → bs ≢ []
ne_nil [] n h = absurd (omega arith)
ne_nil (b ∷ bs) n h = cons-ne-nil b bs

-- The calls of the API that the encryption of a note makes succeed with these results.
pub record Encryption (c : WebCrypto) (random : c.Random) (pub_pem plaintext : Text) : Type 0 where
  pub public_key : c.PublicKey
  pub aes_key : c.AesKey
  pub ciphertext : Bytes
  pub raw_key : Bytes
  pub wrapped : Bytes
  pub imports : import_rsa_public_key c pub_pem ≡ ok public_key
  pub generates : c.generate_aes random ≡ ok aes_key
  pub encrypts :
      c.gcm_encrypt aes_key (c.random_bytes random 12) (Utf8.encode plaintext) ≡ ok ciphertext
  pub exports : c.export_raw aes_key ≡ ok raw_key
  pub wraps : c.oaep_encrypt random public_key raw_key ≡ ok wrapped

module _ (c : WebCrypto) (IsPair : c.PublicKey → c.PrivateKey → Type 0) (laws : IsLawful c IsPair)
    (random : c.Random) (pub_pem plaintext : Text) (e : Encryption c random pub_pem plaintext) where
  abbrev pub sealed : Encrypted
  sealed = record {
    wrapped = url_text e.wrapped;
    iv = url_text (c.random_bytes random 12);
    ct = url_text e.ciphertext;
  }

  -- What is encrypted goes into the link as base64url texts.
  pub encrypt_message_lem : encrypt_message c random pub_pem plaintext ≡ ok sealed
  unfolding encrypt_message
  encrypt_message_lem =
      let pos = chunk_size_pos (length (Utf8.encode plaintext)) in
      rw
        (
          e.imports,
          e.generates,
          e.encrypts,
          e.exports,
          e.wraps,
          bytes_to_base64_url_lem e.wrapped _ (laws.oaep_IsByte _ _ _ _ e.wraps) pos,
          bytes_to_base64_url_lem (c.random_bytes random 12) _ (laws.random_IsByte random 12) pos,
          bytes_to_base64_url_lem e.ciphertext _ (laws.gcm_IsByte _ _ _ _ e.encrypts) pos,
        )
        refl

  pub decrypt_message_lem :
      (priv_pem : Text) (private_key : c.PrivateKey)
      → import_rsa_private_key c priv_pem ≡ ok private_key
      → IsPair e.public_key private_key
      → decrypt_message c priv_pem sealed.wrapped sealed.iv sealed.ct
        ≡ ok (Utf8.decode (Utf8.encode plaintext))
  unfolding decrypt_message
  decrypt_message_lem priv_pem private_key imported pair =
      let size = laws.gcm_length _ _ _ _ e.encrypts in
      let w =
        base64_url_to_bytes-url_text e.wrapped (laws.oaep_IsByte _ _ _ _ e.wraps)
          (ne_nil _ 511 (laws.oaep_length _ _ _ _ e.wraps)) in
      let i =
        base64_url_to_bytes-url_text (c.random_bytes random 12) (laws.random_IsByte random 12)
          (ne_nil _ 11 (laws.random_length random 12)) in
      let t =
        base64_url_to_bytes-url_text e.ciphertext (laws.gcm_IsByte _ _ _ _ e.encrypts)
          (ne_nil _ (length (Utf8.encode plaintext) + 15) (omega arith)) in
      rw
        (
          imported,
          w,
          laws.oaep_inverse _ _ _ _ _ pair e.wraps,
          laws.import_export _ _ e.exports,
          i,
          t,
          laws.gcm_inverse _ _ _ _ e.encrypts,
        )
        refl

-- Decrypting what was encrypted gives the text back, without a leading byte order mark.
pub decrypt_message-encrypt_message :
    (c : WebCrypto) (IsPair : c.PublicKey → c.PrivateKey → Type 0) (laws : IsLawful c IsPair)
    (random : c.Random) (pub_pem priv_pem : Text) (cs : List ℕ)
    (e : Encryption c random pub_pem (text_of cs)) (private_key : c.PrivateKey)
    → All IsScalar cs
    → import_rsa_private_key c priv_pem ≡ ok private_key
    → IsPair e.public_key private_key
    → (encrypt_message c random pub_pem (text_of cs) >>= λ s.
        decrypt_message c priv_pem s.wrapped s.iv s.ct)
      ≡ ok (text_of (strip_mark cs))
decrypt_message-encrypt_message c IsPair laws random pub_pem priv_pem cs e private_key scalar
      imported pair =
    rw (encrypt_message_lem c IsPair laws random pub_pem (text_of cs) e) (
      decrypt_message_lem c IsPair laws random pub_pem (text_of cs) e priv_pem private_key imported
        pair
      ∙ ap ok (decode-encode cs scalar))
