-- ===== src/Crypto/Web.antt =====
-- The Web Crypto API, `crypto.subtle` and `getRandomValues`, as static/crypto.js calls it: the
-- browser implements it, so that it is a parameter. `Random` is the source of randomness of one call
-- of `encryptMessage`, and an operation that rejects its promise is an error.
use key_bank.Base.{ℕ, ◌+◌, ◌≡◌, Bytes, Result, ok, length, All}
use key_bank.Js.Base64.RoundTrip.{IsByte}

pub record WebCrypto : Type 1 where
  pub Random : Type 0
  pub PublicKey : Type 0
  pub PrivateKey : Type 0
  pub AesKey : Type 0
  pub import_spki : Bytes → Result PublicKey
  pub import_pkcs8 : Bytes → Result PrivateKey
  pub import_raw : Bytes → Result AesKey
  pub generate_aes : Random → Result AesKey
  pub random_bytes : Random → ℕ → Bytes
  pub export_raw : AesKey → Result Bytes
  pub gcm_encrypt : AesKey → Bytes → Bytes → Result Bytes
  pub gcm_decrypt : AesKey → Bytes → Bytes → Result Bytes
  pub oaep_encrypt : Random → PublicKey → Bytes → Result Bytes
  pub oaep_decrypt : PrivateKey → Bytes → Result Bytes

-- What the API documents. `IsPair` relates the two halves of an RSA-4096 key pair.
pub record IsLawful (c : WebCrypto) (IsPair : c.PublicKey → c.PrivateKey → Type 0) : Type 0 where
  pub random_length : (r : c.Random) (n : ℕ) → length (c.random_bytes r n) ≡ n
  pub random_IsByte : (r : c.Random) (n : ℕ) → All IsByte (c.random_bytes r n)
  pub import_export :
      (k : c.AesKey) (raw : Bytes) → c.export_raw k ≡ ok raw → c.import_raw raw ≡ ok k
  pub gcm_inverse :
      (k : c.AesKey) (iv m ct : Bytes) → c.gcm_encrypt k iv m ≡ ok ct → c.gcm_decrypt k iv ct ≡ ok m
  -- The tag has sixteen bytes.
  pub gcm_length :
      (k : c.AesKey) (iv m ct : Bytes) → c.gcm_encrypt k iv m ≡ ok ct → length ct ≡ length m + 16
  pub gcm_IsByte : (k : c.AesKey) (iv m ct : Bytes) → c.gcm_encrypt k iv m ≡ ok ct → All IsByte ct
  pub oaep_inverse :
      (r : c.Random) (p : c.PublicKey) (s : c.PrivateKey) (m w : Bytes)
      → IsPair p s
      → c.oaep_encrypt r p m ≡ ok w
      → c.oaep_decrypt s w ≡ ok m
  pub oaep_length :
      (r : c.Random) (p : c.PublicKey) (m w : Bytes) → c.oaep_encrypt r p m ≡ ok w → length w ≡ 512
  pub oaep_IsByte :
      (r : c.Random) (p : c.PublicKey) (m w : Bytes) → c.oaep_encrypt r p m ≡ ok w → All IsByte w
