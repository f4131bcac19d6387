-- ===== src/Note.antt =====
-- A note from the sender to the recipient: static/crypto.js and static/link.js together, as
-- static/create.js and static/share.js use them.
use key_bank.Base.{
  ℕ, ◌+◌, ◌≡◌, refl, ap, ◌∙◌, List, ◌∷◌, ◌++◌, codes, Text, ok, ◌>>=◌, length, All, arith,
}
use key_bank.Js.Utf8
use key_bank.Js.Utf8.{text_of, strip_mark}
use key_bank.Js.Utf8.RoundTrip.{IsScalar, decode-encode}
use key_bank.Js.Url.Component.{IsUnreserved}
use key_bank.Crypto.Codec.RoundTrip.{url_text-pattern}
use key_bank.Crypto.Web.{WebCrypto, IsLawful}
use key_bank.Crypto.Message.{import_rsa_private_key, encrypt_message, decrypt_message}
use key_bank.Crypto.Message.RoundTrip.{
  Encryption, sealed, encrypt_message_lem, decrypt_message_lem, ne_nil,
}
use key_bank.Link.{fragment_of, build_share_url, parse_fragment, estimate_link_length, id_length}
use key_bank.Link.Fragment.{IsWellFormed}
use key_bank.Link.RoundTrip.{hash_of, IsNoHash, build_share_url_lem, parse_fragment-build_share_url}
use key_bank.Link.Length.{length-build_share_url}

module _ (c : WebCrypto) (IsPair : c.PublicKey → c.PrivateKey → Type 0) (laws : IsLawful c IsPair)
    (random : c.Random) (pub_pem plaintext : Text) (e : Encryption c random pub_pem plaintext) where
  sealed-IsWellFormed : IsWellFormed (sealed c IsPair laws random pub_pem plaintext e)
  sealed-IsWellFormed = record {
    wrapped_ok =
        url_text-pattern e.wrapped (laws.oaep_IsByte _ _ _ _ e.wraps)
          (ne_nil _ 511 (laws.oaep_length _ _ _ _ e.wraps));
    iv_ok =
        url_text-pattern _ (laws.random_IsByte random 12)
          (ne_nil _ 11 (laws.random_length random 12));
    ct_ok =
        let size = laws.gcm_length _ _ _ _ e.encrypts in
        url_text-pattern e.ciphertext (laws.gcm_IsByte _ _ _ _ e.encrypts)
          (ne_nil _ (length (Utf8.encode plaintext) + 15) (omega arith));
  }

  -- Let the calls of a lawful Web Crypto API succeed, and the ID have the expected length and only
  -- unreserved characters. Then the link of a note is built, and it has exactly the length that the
  -- create page shows before it is made.
  pub length-share_link :
      (origin id : Text)
      → All IsUnreserved id
      → length id ≡ id_length
      → (url : Text) × ((encrypt_message c random pub_pem plaintext >>= build_share_url origin id)
          ≡ ok url)
        × (length url ≡ estimate_link_length origin (length (Utf8.encode plaintext)))
  length-share_link origin id hi hid =
      rw (encrypt_message_lem c IsPair laws random pub_pem plaintext e) (
        length-build_share_url origin id e.wrapped (c.random_bytes random 12) e.ciphertext _ _ refl
          sealed-IsWellFormed hi hid (laws.oaep_length _ _ _ _ e.wraps)
          (laws.random_length random 12) (laws.gcm_length _ _ _ _ e.encrypts))

-- Let the calls of a lawful Web Crypto API succeed, the note be made of scalar values, the origin hold
-- no `#`, the ID hold only unreserved characters, and the private key be the other half of the pair.
-- Then the link of the note is built, and opened and decrypted it gives the note back, without a
-- leading byte order mark.
pub decrypt_message-build_share_url :
    (c : WebCrypto) (IsPair : c.PublicKey → c.PrivateKey → Type 0) (laws : IsLawful c IsPair)
    (random : c.Random) (pub_pem priv_pem origin id : Text) (cs : List ℕ)
    (e : Encryption c random pub_pem (text_of cs)) (private_key : c.PrivateKey)
    → All IsScalar cs
    → All IsNoHash origin
    → All IsUnreserved id
    → import_rsa_private_key c priv_pem ≡ ok private_key
    → IsPair e.public_key private_key
    → (url : Text) × ((encrypt_message c random pub_pem (text_of cs) >>= build_share_url origin id)
        ≡ ok url)
      × ((parse_fragment (hash_of url) >>= λ f. decrypt_message c priv_pem f.wrapped f.iv f.ct)
          ≡ ok (text_of (strip_mark cs)))
decrypt_message-build_share_url c IsPair laws random pub_pem priv_pem origin id cs e private_key hs
      ho hi hk pair =
    let s = sealed c IsPair laws random pub_pem (text_of cs) e in
    let good = sealed-IsWellFormed c IsPair laws random pub_pem (text_of cs) e in
    let built = build_share_url_lem origin id s hi in
    let read = rw built at (parse_fragment-build_share_url origin id s ho hi good) in
    (
      (origin ++ codes "/share/") ++ (id ++ (b'#' ∷ fragment_of s)),
      rw (encrypt_message_lem c IsPair laws random pub_pem (text_of cs) e) built,
      rw read (
          decrypt_message_lem c IsPair laws random pub_pem (text_of cs) e priv_pem private_key hk
            pair
          ∙ ap ok (decode-encode cs hs)),
    )
