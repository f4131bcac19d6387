-- ===== src/Js/Utf8/Ascii.antt =====
-- ASCII text is its own encoding.
use key_bank.Base.{ℕ, ◌<◌, ◌≡◌, refl, [], ◌∷◌, Text, All, arith}
use key_bank.Js.Utf8.{
  scalars, text_of, encode_scalars, encode, idle, decode_from, decode_scalars, strip_mark, decode,
}

abbrev pub IsAscii : ℕ → Type 0
IsAscii c = c < 0x80

scalars_ascii : (t : Text) → All IsAscii t → scalars t ≡ t
unfolding scalars
scalars_ascii [] h = refl
scalars_ascii (c ∷ []) h = ground arith
scalars_ascii (c ∷ d ∷ t) (hc, h) = ground (arith, scalars_ascii (d ∷ t) h)

encode_scalars_ascii : (t : Text) → All IsAscii t → encode_scalars t ≡ t
unfolding encode_scalars
encode_scalars_ascii [] h = refl
encode_scalars_ascii (c ∷ t) (hc, h) = ground (arith, encode_scalars_ascii t h)

pub encode_ascii : (t : Text) → All IsAscii t → encode t ≡ t
unfolding encode
encode_ascii t h = rw (scalars_ascii t h) (encode_scalars_ascii t h)

decode_from_ascii : (t : Text) → All IsAscii t → decode_from idle t ≡ t
unfolding decode_from
decode_from_ascii [] h = refl
decode_from_ascii (c ∷ t) (hc, h) = ground (arith, decode_from_ascii t h)

text_of_ascii : (t : Text) → All IsAscii t → text_of t ≡ t
unfolding text_of
text_of_ascii [] h = refl
text_of_ascii (c ∷ t) (hc, h) = ground (arith, text_of_ascii t h)

pub decode_ascii : (t : Text) → All IsAscii t → text_of (decode_scalars t) ≡ t
unfolding decode_scalars
decode_ascii t h = rw (decode_from_ascii t h) (text_of_ascii t h)

strip_mark_ascii : (t : Text) → All IsAscii t → strip_mark t ≡ t
unfolding strip_mark
strip_mark_ascii [] h = refl
strip_mark_ascii (c ∷ t) (hc, h) = ground arith

pub decode-IsAscii : (t : Text) → All IsAscii t → decode t ≡ t
unfolding decode decode_scalars
decode-IsAscii t h = rw (decode_from_ascii t h, strip_mark_ascii t h) (text_of_ascii t h)
