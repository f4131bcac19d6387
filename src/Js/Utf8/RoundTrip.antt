-- ===== src/Js/Utf8/RoundTrip.antt =====
-- Well-formed text is encoded and decoded without loss, but for a leading byte order mark.
use key_bank.Base.{
  ℕ, ◌≤◌, ◌<◌, ◌≡◌, refl, ap, ◌∙◌, ◌⊎◌, List, [], ◌∷◌, ◌++◌, Text, Bytes, All, All-append, arith,
  dec_lt,
}
use key_bank.Js.Base64.RoundTrip.{IsByte}
use key_bank.Js.Utf8.{
  scalars, units, text_of, encode_scalar, encode_scalars, encode, idle, decode_from, decode_scalars,
  strip_mark, decode,
}

-- A Unicode scalar value: a code point that is no surrogate.
abbrev pub IsScalar : ℕ → Type 0
IsScalar c = (c < 0x110000) × ((c < 0xD800) ⊎ (0xDFFF < c))

module _ (c : ℕ) (rest : Bytes) where
  decode_one : c < 0x80 → decode_from idle (encode_scalar c ++ rest) ≡ c ∷ decode_from idle rest
  unfolding decode_from encode_scalar
  decode_one h = ground arith

  decode_two :
      0x80 ≤ c → c < 0x800 → decode_from idle (encode_scalar c ++ rest) ≡ c ∷ decode_from idle rest
  unfolding decode_from encode_scalar
  decode_two h k = ground arith

  decode_three :
      0x800 ≤ c
      → c < 0x10000
      → (c < 0xD800) ⊎ (0xDFFF < c)
      → decode_from idle (encode_scalar c ++ rest) ≡ c ∷ decode_from idle rest
  unfolding decode_from encode_scalar
  decode_three h k s = ground arith

  decode_four :
      0x10000 ≤ c
      → c < 0x110000
      → decode_from idle (encode_scalar c ++ rest) ≡ c ∷ decode_from idle rest
  unfolding decode_from encode_scalar
  decode_four h k = ground arith

decode_from-encode_scalar :
    (c : ℕ) (rest : Bytes)
    → IsScalar c
    → decode_from idle (encode_scalar c ++ rest) ≡ c ∷ decode_from idle rest
decode_from-encode_scalar c rest (bound, plain) = elim (dec_lt c 0x80) [
  | yes h ↦ decode_one c rest h
  | no h ↦ elim (dec_lt c 0x800) [
    | yes k ↦ decode_two c rest (omega arith) k
    | no k ↦ elim (dec_lt c 0x10000) [
      | yes l ↦ decode_three c rest (omega arith) l plain
      | no l ↦ decode_four c rest (omega arith) bound
    ]
  ]
]

encode_scalars-cons :
    (c : ℕ) (cs : List ℕ) → encode_scalars (c ∷ cs) ≡ encode_scalar c ++ encode_scalars cs
unfolding encode_scalars
encode_scalars-cons c cs = refl

decode_from-encode_scalars :
    (cs : List ℕ) → All IsScalar cs → decode_from idle (encode_scalars cs) ≡ cs
decode_from-encode_scalars [] h = unfold decode_from encode_scalars in refl
decode_from-encode_scalars (c ∷ cs) (hc, h) = rw (encode_scalars-cons c cs) (
    decode_from-encode_scalar c (encode_scalars cs) hc
    ∙ ap (λ l. c ∷ l) (decode_from-encode_scalars cs h))

pub decode_scalars-encode_scalars :
    (cs : List ℕ) → All IsScalar cs → decode_scalars (encode_scalars cs) ≡ cs
unfolding decode_scalars
decode_scalars-encode_scalars cs h = decode_from-encode_scalars cs h

scalars-units : (c : ℕ) (t : Text) → IsScalar c → scalars (units c ++ t) ≡ c ∷ scalars t
unfolding scalars units
scalars-units c [] (bound, plain) = ground arith
scalars-units c (v ∷ t) (bound, plain) = ground arith

text_of-cons : (c : ℕ) (cs : List ℕ) → text_of (c ∷ cs) ≡ units c ++ text_of cs
unfolding text_of
text_of-cons c cs = refl

pub scalars-text_of : (cs : List ℕ) → All IsScalar cs → scalars (text_of cs) ≡ cs
scalars-text_of [] h = unfold scalars text_of in refl
scalars-text_of (c ∷ cs) (hc, h) =
    rw (text_of-cons c cs)
      (scalars-units c (text_of cs) hc ∙ ap (λ l. c ∷ l) (scalars-text_of cs h))

pub encode_scalar-IsByte : (c : ℕ) → IsScalar c → All IsByte (encode_scalar c)
unfolding encode_scalar
encode_scalar-IsByte c (bound, plain) = ground arith

pub encode_scalars-IsByte : (cs : List ℕ) → All IsScalar cs → All IsByte (encode_scalars cs)
unfolding encode_scalars
encode_scalars-IsByte [] h = tt
encode_scalars-IsByte (c ∷ cs) (hc, h) =
    All-append IsByte (encode_scalar c) (encode_scalars cs) (encode_scalar-IsByte c hc)
      (encode_scalars-IsByte cs h)

-- Scalar values survive the encoder and the decoder, a leading mark excepted.
pub decode-encode :
    (cs : List ℕ) → All IsScalar cs → decode (encode (text_of cs)) ≡ text_of (strip_mark cs)
unfolding decode encode
decode-encode cs h = rw (scalars-text_of cs h, decode_scalars-encode_scalars cs h) refl
