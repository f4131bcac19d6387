-- ===== src/Examples/Browser.antt =====
-- A browser for the examples: every operation of its Web Crypto API is a concrete function, which
-- keeps the documented laws without hiding anything.
use mathlib.Core.Bool.{and-eq-true_iff}
use key_bank.Base.{
  ℕ, zero, suc, ◌+◌, ◌≡◌, refl, ap, subst, ◌∙◌, Bool, true, false, ◌&&◌, [], ◌∷◌, Bytes, Result, ok,
  err, rejected, length, All, all, drop, ltb, ◌==◌, arith,
}
use key_bank.Js.Base64.RoundTrip.{IsByte}
use key_bank.Crypto.Web.{WebCrypto, IsLawful}

abbrev pub pad : ℕ → Bytes → Bytes
pad zero m = m
pad (suc n) m = 0 ∷ pad n m

abbrev pub is_byte : ℕ → Bool
is_byte n = ltb n 256

-- Encryption puts zeros before its message, if that is one of bytes.
abbrev guarded : Bool → ℕ → Bytes → Result Bytes
guarded true n m = ok (pad n m)
guarded false n m = err rejected

abbrev pub browser : WebCrypto
browser = record {
  Random = Unit;
  PublicKey = Unit;
  PrivateKey = Unit;
  AesKey = Unit;
  import_spki = λ bytes. ok tt;
  import_pkcs8 = λ bytes. ok tt;
  import_raw = λ raw. ok tt;
  generate_aes = λ random. ok tt;
  random_bytes = λ random n. pad n [];
  export_raw = λ key. ok (pad 32 []);
  gcm_encrypt = λ key iv m. guarded (all is_byte m) 16 m;
  gcm_decrypt = λ key iv ct. ok (drop 16 ct);
  oaep_encrypt = λ random key m. guarded (all is_byte m && length m == 32) 480 m;
  oaep_decrypt = λ key w. ok (drop 480 w);
}

abbrev pub IsPair : Unit {0} → Unit {0} → Type 0
IsPair p s = Unit

drop-pad : (n : ℕ) (m : Bytes) → drop n (pad n m) ≡ m
drop-pad zero m = refl
drop-pad (suc n) m = drop-pad n m

length-pad : (n : ℕ) (m : Bytes) → length (pad n m) ≡ length m + n
length-pad zero m = omega arith
length-pad (suc n) m = omega (arith, length-pad n m)

pad-IsByte : (n : ℕ) (m : Bytes) → All IsByte m → All IsByte (pad n m)
pad-IsByte zero m h = h
pad-IsByte (suc n) m h = (omega arith, pad-IsByte n m h)

pub bytes-IsByte : (m : Bytes) → all is_byte m ≡ true → All IsByte m
bytes-IsByte [] h = tt
bytes-IsByte (b ∷ m) h =
    let (hb, hm) = (and-eq-true_iff (is_byte b) (all is_byte m)).0 h in
    (ground arith, bytes-IsByte m hm)

-- What an encryption that succeeds has checked, and its result.
guarded-ok : (b : Bool) (n : ℕ) (m w : Bytes) → guarded b n m ≡ ok w → (b ≡ true) × (pad n m ≡ w)
guarded-ok true n m w h = ground arith
guarded-ok false n m w h = cc

module _ (b : Bool) (n : ℕ) (m w : Bytes) (h : guarded b n m ≡ ok w) where
  padded : pad n m ≡ w
  padded = (guarded-ok b n m w h).1

  drop-guarded : drop n w ≡ m
  drop-guarded = subst (λ v. drop n v ≡ m) padded (drop-pad n m)

  length-guarded : length w ≡ length m + n
  length-guarded = subst (λ v. length v ≡ length m + n) padded (length-pad n m)

  guarded-IsByte : (b ≡ true → all is_byte m ≡ true) → All IsByte w
  guarded-IsByte checked =
      subst (All IsByte) padded (pad-IsByte n m (bytes-IsByte m (checked (guarded-ok b n m w h).0)))

of_size : (n k : ℕ) (b : Bool) → (b && (n == k)) ≡ true → n ≡ k
of_size n k b h = ground arith

plain : (n : ℕ) → 0 + n ≡ n
plain n = omega arith

pub browser-IsLawful : IsLawful browser IsPair
browser-IsLawful = record {
  random_length = λ r n. length-pad n [] ∙ plain n;
  random_IsByte = λ r n. pad-IsByte n [] tt;
  import_export = λ k raw h. refl;
  gcm_inverse = λ k iv m ct h. ap ok (drop-guarded _ 16 m ct h);
  gcm_length = λ k iv m ct h. length-guarded _ 16 m ct h;
  gcm_IsByte = λ k iv m ct h. guarded-IsByte _ 16 m ct h (λ c. c);
  oaep_inverse = λ r p s m w pair h. ap ok (drop-guarded _ 480 m w h);
  oaep_length = λ r p m w h.
      length-guarded _ 480 m w h
      ∙ ap (λ n. n + 480) (of_size (length m) 32 (all is_byte m) (guarded-ok _ 480 m w h).0);
  oaep_IsByte = λ r p m w h. guarded-IsByte _ 480 m w h (λ c. ((and-eq-true_iff _ _).0 c).0);
}
