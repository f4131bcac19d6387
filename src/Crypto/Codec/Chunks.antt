-- ===== src/Crypto/Codec/Chunks.antt =====
-- The loop of `bytesToBase64` ends, and its chunks spell all the bytes.
use key_bank.Base.{
  ℕ, zero, suc, ◌+◌, ◌-◌, ◌≤◌, ◌<◌, ◌≡◌, refl, ap, ◌∙◌, sym, [], ◌∷◌, ◌++◌, append-nil,
  append_assoc, true, Text, Bytes, ok, length, take, drop, take-append-drop, All, all, ltb, arith,
  Bool-cases, inl, inr, lt→ltb,
}
use key_bank.Js.Base64
use key_bank.Js.Base64.{btoa}
use key_bank.Js.Base64.RoundTrip.{IsByte}
use key_bank.Crypto.Codec.{chunk_loop, bytes_to_base64, chunk_size_for_plaintext}

drop-nil : (n : ℕ) → drop {A = ℕ} n [] ≡ []
drop-nil zero = refl
drop-nil (suc n) = refl

drop-drop : (i k : ℕ) (bs : Bytes) → drop (i + k) bs ≡ drop k (drop i bs)
drop-drop zero k bs = ap (λ n. drop n bs) (omega arith)
drop-drop (suc i) k [] = rw (drop-nil (suc i + k), drop-nil k) refl
drop-drop (suc i) k (b ∷ bs) =
    let e : suc i + k ≡ suc (i + k) = omega arith in rw e (drop-drop i k bs)

take_next : (i k : ℕ) (bs : Bytes) → take k (drop i bs) ++ drop (i + k) bs ≡ drop i bs
take_next i k bs = rw (drop-drop i k bs) (take-append-drop k (drop i bs))

drop_all : (i : ℕ) (bs : Bytes) → length bs ≤ i → drop i bs ≡ []
drop_all zero [] h = refl
drop_all zero (b ∷ bs) h = absurd (omega arith)
drop_all (suc i) [] h = refl
drop_all (suc i) (b ∷ bs) h = drop_all i bs (omega arith)

-- With fuel for every byte the loop has appended all of them.
chunk_loop_lem :
    (fuel : ℕ) (bytes : Bytes) (chunk_size i : ℕ) (binary : Text)
    → 0 < chunk_size
    → length bytes - i < fuel
    → chunk_loop fuel bytes chunk_size i binary ≡ ok (binary ++ drop i bytes)
unfolding chunk_loop
chunk_loop_lem zero bytes chunk_size i binary pos enough = absurd (omega arith)
chunk_loop_lem (suc fuel) bytes chunk_size i binary pos enough =
    elim (Bool-cases (ltb i (length bytes))) [
      | inl more ↦ rw more (
          chunk_loop_lem fuel bytes chunk_size (i + chunk_size)
            (binary ++ take chunk_size (drop i bytes)) pos (ground arith)
          ∙ ap ok (append_assoc binary _ _ ∙ ap (λ t. binary ++ t) (take_next i chunk_size bytes)))
      | inr done ↦ rw done (
          ap ok (
            sym (append-nil binary)
            ∙ ap (λ t. binary ++ t) (sym (drop_all i bytes (ground arith)))))
    ]

bytes_fit : (bytes : Bytes) → All IsByte bytes → all (λ c. ltb c 256) bytes ≡ true
bytes_fit [] h = refl
bytes_fit (b ∷ bs) (hb, h) = rw (lt→ltb b 256 hb) (bytes_fit bs h)

btoa_bytes : (bytes : Bytes) → All IsByte bytes → btoa bytes ≡ ok (Base64.encode bytes)
unfolding btoa
btoa_bytes bytes h = rw (bytes_fit bytes h) refl

-- The chunk size does not show in the result: it is the base64 text of the bytes.
pub bytes_to_base64_lem :
    (bytes : Bytes) (chunk_size : ℕ)
    → All IsByte bytes
    → 0 < chunk_size
    → bytes_to_base64 bytes chunk_size ≡ ok (Base64.encode bytes)
unfolding bytes_to_base64
bytes_to_base64_lem bytes chunk_size h pos =
    rw (chunk_loop_lem (suc (length bytes)) bytes chunk_size 0 [] pos (omega arith))
      (btoa_bytes bytes h)

pub chunk_size_pos : (n : ℕ) → 0 < chunk_size_for_plaintext n
unfolding chunk_size_for_plaintext
chunk_size_pos n = ground arith
