-- ===== src/Js/Base64.antt =====
-- `btoa` and `atob` (the HTML standard, "forgiving-base64"). A base64 text is the characters of the
-- sextets of the bytes, then padding.
pub mod RoundTrip
pub mod Malformed
use Prim.Native.String.{String}
use key_bank.Base.{
  ℕ, zero, suc, ◌+◌, ◌-◌, ◌*◌, ◌/◌, ◌%◌, Bool, true, false, ◌||◌, ◌&&◌, not, List, [], ◌∷◌, ◌++◌,
  map, Option, none, some, Text, Bytes, codes, Result, ok, err, thrown, length, replicate, all, ltb,
  leb, ◌==◌, if◌then◌else◌,
}

-- The six-bit digits of a byte sequence.
unfoldable pub sextets : Bytes → List ℕ
sextets [] = []
sextets (a ∷ []) = a / 4 ∷ a % 4 * 16 ∷ []
sextets (a ∷ b ∷ []) = a / 4 ∷ (a % 4 * 16 + b / 16) ∷ b % 16 * 4 ∷ []
sextets (a ∷ b ∷ c ∷ r) = a / 4 ∷ (a % 4 * 16 + b / 16) ∷ (b % 16 * 4 + c / 64) ∷ c % 64 ∷ sextets r

-- How many `=` follow the digits of `n` bytes.
abbrev pub padding : ℕ → ℕ
padding n = (3 - n % 3) % 3

-- The digit `n`: A-Z, a-z, 0-9, + and /.
unfoldable pub digit : ℕ → ℕ
digit n =
    if ltb n 26
    then 65 + n
    else if ltb n 52
    then 71 + n
    else if ltb n 62
    then n - 4
    else if n == 62
    then b'+'
    else b'/'

unfoldable pub digit_value : ℕ → Option ℕ
digit_value c =
    if leb b'A' c && leb c b'Z'
    then some (c - 65)
    else if leb b'a' c && leb c b'z'
    then some (c - 71)
    else if leb b'0' c && leb c b'9'
    then some (c + 4)
    else if c == b'+'
    then some 62
    else if c == b'/'
    then some 63
    else none

unfoldable pub encode : Bytes → Text
encode bs = map digit (sextets bs) ++ replicate (padding (length bs)) b'='

-- `btoa` throws on a code unit above 255.
unfoldable pub btoa : Text → Result Text
btoa t =
    if all (λ c. ltb c 256) t then ok (encode t) else err (thrown (codes "InvalidCharacterError"))

abbrev pub is_ascii_whitespace : ℕ → Bool
is_ascii_whitespace c = c == 9 || c == 10 || c == 12 || c == 13 || c == 32

unfoldable pub keep : (ℕ → Bool) → Text → Text
keep p [] = []
keep p (c ∷ t) = if p c then c ∷ keep p t else keep p t

-- One `=` is taken from the end, if it is there.
unfoldable pub drop_equals : Text → Text
drop_equals [] = []
drop_equals (c ∷ []) = if c == b'=' then [] else c ∷ []
drop_equals (c ∷ d ∷ t) = c ∷ drop_equals (d ∷ t)

unfoldable pub drop_padding : Text → Text
unfolding drop_equals
drop_padding t = if length t % 4 == 0 then drop_equals (drop_equals t) else t

cons_value : Option ℕ → Option (List ℕ) → Option (List ℕ)
cons_value (some v) (some vs) = some (v ∷ vs)
cons_value (some v) none = none
cons_value none vs = none

pub digit_values : Text → Option (List ℕ)
unfolding cons_value digit_value
digit_values [] = some []
digit_values (c ∷ t) = cons_value (digit_value c) (digit_values t)

-- Four digits are three bytes; the spare bits of an incomplete group are dropped.
unfoldable pub unsextets : List ℕ → Bytes
unsextets [] = []
unsextets (p ∷ []) = []
unsextets (p ∷ q ∷ []) = (p * 4 + q / 16) ∷ []
unsextets (p ∷ q ∷ r ∷ []) = (p * 4 + q / 16) ∷ (q % 16 * 16 + r / 4) ∷ []
unsextets (p ∷ q ∷ r ∷ s ∷ t) =
    (p * 4 + q / 16) ∷ (q % 16 * 16 + r / 4) ∷ (r % 4 * 64 + s) ∷ unsextets t

abbrev pub invalid_character {ℓ} : {A : Type ℓ} → Result A
invalid_character = err (thrown (codes "InvalidCharacterError"))

decoded : Option (List ℕ) → Result Bytes
decoded (some vs) = ok (unsextets vs)
decoded none = invalid_character

pub decode_digits : Text → Result Bytes
unfolding decoded digit_values unsextets
decode_digits t = if length t % 4 == 1 then invalid_character else decoded (digit_values t)

unfoldable pub atob : Text → Result Bytes
unfolding keep drop_padding decode_digits
atob t = decode_digits (drop_padding (keep (λ c. not (is_ascii_whitespace c)) t))
