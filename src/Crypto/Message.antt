-- ===== src/Crypto/Message.antt =====
-- static/crypto.js, `encryptMessage` and `decryptMessage` with the imports of the RSA keys.
pub mod RoundTrip
use key_bank.Base.{ℕ, Text, Bytes, codes, Result, ok, ◌>>=◌, length}
use key_bank.Js.Utf8
use key_bank.Crypto.Codec.{chunk_size_for_plaintext, bytes_to_base64_url, base64_url_to_bytes}
use key_bank.Crypto.Pem.{pem_to_bytes}
use key_bank.Crypto.Web.{WebCrypto}

pub record Encrypted : Type 0 where
  pub wrapped : Text
  pub iv : Text
  pub ct : Text

module _ (c : WebCrypto) where
  unfoldable pub import_rsa_public_key : Text → Result c.PublicKey
  import_rsa_public_key pem = do bytes ← pem_to_bytes pem (codes "PUBLIC KEY"); c.import_spki bytes

  unfoldable pub import_rsa_private_key : Text → Result c.PrivateKey
  import_rsa_private_key pem = do
    bytes ← pem_to_bytes pem (codes "PRIVATE KEY")
    c.import_pkcs8 bytes

  unfoldable pub generate_aes_key : c.Random → Result c.AesKey
  generate_aes_key random = c.generate_aes random

  unfoldable pub encrypt_message : c.Random → Text → Text → Result Encrypted
  unfolding generate_aes_key
  encrypt_message random pub_pem plaintext = do
    public_key ← import_rsa_public_key pub_pem
    aes_key ← generate_aes_key random
    let iv = c.random_bytes random 12
    let plaintext_bytes = Utf8.encode plaintext
    let chunk_size = chunk_size_for_plaintext (length plaintext_bytes)
    ciphertext ← c.gcm_encrypt aes_key iv plaintext_bytes
    raw_key ← c.export_raw aes_key
    wrapped ← c.oaep_encrypt random public_key raw_key
    wrapped_text ← bytes_to_base64_url wrapped chunk_size
    iv_text ← bytes_to_base64_url iv chunk_size
    ct_text ← bytes_to_base64_url ciphertext chunk_size
    ok (record { wrapped = wrapped_text; iv = iv_text; ct = ct_text })

  unfoldable pub decrypt_message : Text → Text → Text → Text → Result Text
  decrypt_message priv_pem wrapped iv ct = do
    private_key ← import_rsa_private_key priv_pem
    wrapped_bytes ← base64_url_to_bytes wrapped
    raw_key ← c.oaep_decrypt private_key wrapped_bytes
    aes_key ← c.import_raw raw_key
    iv_bytes ← base64_url_to_bytes iv
    ct_bytes ← base64_url_to_bytes ct
    plaintext ← c.gcm_decrypt aes_key iv_bytes ct_bytes
    ok (Utf8.decode plaintext)
