-- ===== src/Js/Utf8.antt =====
-- `TextEncoder` and `TextDecoder` (the encoding standard): code units to scalar values and UTF-8
-- bytes, and back.
pub mod RoundTrip
pub mod Ascii
use key_bank.Base.{
  ℕ, zero, suc, ◌+◌, ◌-◌, ◌*◌, ◌/◌, ◌%◌, Bool, true, false, ◌||◌, ◌&&◌, List, [], ◌∷◌, ◌++◌, Text,
  Bytes, ltb, leb, ◌==◌, if◌then◌else◌,
}

abbrev pub replacement : ℕ
replacement = 0xFFFD

abbrev pub byte_order_mark : ℕ
byte_order_mark = 0xFEFF

abbrev pub is_high_surrogate : ℕ → Bool
is_high_surrogate u = leb 0xD800 u && leb u 0xDBFF

abbrev pub is_low_surrogate : ℕ → Bool
is_low_surrogate u = leb 0xDC00 u && leb u 0xDFFF

-- A unit outside a pair: a lone surrogate is replaced.
unfoldable pub lone : ℕ → ℕ
lone u = if is_high_surrogate u || is_low_surrogate u then replacement else u

unfoldable pub scalars : Text → List ℕ
unfolding lone
scalars [] = []
scalars (u ∷ []) = lone u ∷ []
scalars (u ∷ v ∷ t) =
    let pair = (0x10000 + (u - 0xD800) * 1024 + (v - 0xDC00)) ∷ scalars t in
    let single = lone u ∷ scalars (v ∷ t) in
    if is_high_surrogate u && is_low_surrogate v then pair else single

-- The code units of one scalar value.
unfoldable pub units : ℕ → Text
units c =
    if ltb c 0x10000
    then c ∷ []
    else (0xD800 + (c - 0x10000) / 1024) ∷ (0xDC00 + (c - 0x10000) % 1024) ∷ []

unfoldable pub text_of : List ℕ → Text
unfolding units
text_of [] = []
text_of (c ∷ cs) = units c ++ text_of cs

-- The bytes of one scalar value.
unfoldable pub encode_scalar : ℕ → Bytes
encode_scalar c =
    if ltb c 0x80
    then c ∷ []
    else if ltb c 0x800
    then (0xC0 + c / 64) ∷ (0x80 + c % 64) ∷ []
    else if ltb c 0x10000
    then (0xE0 + c / 4096) ∷ (0x80 + c / 64 % 64) ∷ (0x80 + c % 64) ∷ []
    else (0xF0 + c / 262144) ∷ (0x80 + c / 4096 % 64) ∷ (0x80 + c / 64 % 64) ∷ (0x80 + c % 64) ∷ []

unfoldable pub encode_scalars : List ℕ → Bytes
unfolding encode_scalar
encode_scalars [] = []
encode_scalars (c ∷ cs) = encode_scalar c ++ encode_scalars cs

-- `TextEncoder.encode`
unfoldable pub encode : Text → Bytes
unfolding scalars encode_scalars
encode t = encode_scalars (scalars t)

-- Between two scalar values, or before a continuation byte: how many follow it, the range that it
-- must be in, and the bits so far.
pub data State : Type 0 where
  idle : State
  more : ℕ → ℕ → ℕ → ℕ → State

pub record Step : Type 0 where
  pub out : List ℕ
  pub next : State

-- The first byte of a scalar value.
unfoldable pub lead : ℕ → Step
lead b =
    if ltb b 0x80
    then record { out = b ∷ []; next = idle }
    else if leb 0xC2 b && leb b 0xDF
    then record { out = []; next = more 0 0x80 0xBF (b - 0xC0) }
    else if leb 0xE0 b && leb b 0xEF
    then record {
      out = [];
      next =
          more 1 (if b == 0xE0 then 0xA0 else 0x80) (if b == 0xED then 0x9F else 0xBF) (b - 0xE0);
    }
    else if leb 0xF0 b && leb b 0xF4
    then record {
      out = [];
      next =
          more 2 (if b == 0xF0 then 0x90 else 0x80) (if b == 0xF4 then 0x8F else 0xBF) (b - 0xF0);
    }
    else record { out = replacement ∷ []; next = idle }

-- The byte extends the bits so far.
unfoldable pub extend : ℕ → ℕ → Step
extend zero bits = record { out = bits ∷ []; next = idle }
extend (suc n) bits = record { out = []; next = more n 0x80 0xBF bits }

-- An unexpected byte ends the broken sequence, and is read again as a first byte.
unfoldable pub step : State → ℕ → Step
unfolding lead extend
step idle b = lead b
step (more n lo hi bits) b =
    if leb lo b && leb b hi
    then extend n (bits * 64 + (b - 0x80))
    else record (lead b) { out = replacement ∷ (lead b).out }

unfoldable pub decode_from : State → Bytes → List ℕ
unfolding step
decode_from idle [] = []
decode_from (more n lo hi bits) [] = replacement ∷ []
decode_from s (b ∷ bs) = (step s b).out ++ decode_from (step s b).next bs

-- "UTF-8 decode without BOM", to scalar values.
unfoldable pub decode_scalars : Bytes → List ℕ
unfolding decode_from
decode_scalars bs = decode_from idle bs

-- A decoder drops a leading byte order mark, unless it is told to keep it.
unfoldable pub strip_mark : List ℕ → List ℕ
strip_mark [] = []
strip_mark (c ∷ cs) = if c == byte_order_mark then cs else c ∷ cs

-- `TextDecoder.decode`
unfoldable pub decode : Bytes → Text
unfolding decode_scalars strip_mark text_of
decode bs = text_of (strip_mark (decode_scalars bs))
