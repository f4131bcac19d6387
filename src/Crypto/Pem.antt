-- ===== src/Crypto/Pem.antt =====
-- static/crypto.js, PEM blocks: `pemToBytes`.
pub mod RoundTrip
use key_bank.Base.{
  ℕ, zero, suc, ◌+◌, ◌-◌, Bool, true, false, ◌||◌, ◌&&◌, not, List, [], ◌∷◌, ◌++◌, Option, none,
  some, Text, Bytes, codes, Result, ok, err, thrown, length, take, drop, leb, ◌==◌, if◌then◌else◌,
}
use key_bank.Js.Base64.{keep}
use key_bank.Crypto.Codec.{base64_to_bytes}

-- `\s` of a regular expression, and what `trim` removes.
abbrev pub is_space : ℕ → Bool
is_space c =
    (leb 9 c && leb c 13)
    || c == 32
    || c == 0xA0
    || c == 0x1680
    || (leb 0x2000 c && leb c 0x200A)
    || c == 0x2028
    || c == 0x2029
    || c == 0x202F
    || c == 0x205F
    || c == 0x3000
    || c == 0xFEFF

unfoldable pub starts_with : Text → Text → Bool
starts_with [] t = true
starts_with (p ∷ pat) [] = false
starts_with (p ∷ pat) (c ∷ t) = p == c && starts_with pat t

next : Option ℕ → Option ℕ
next none = none
next (some n) = some (suc n)

-- `t.indexOf(pat)`, with `none` for -1
unfoldable pub index_of : Text → Text → Option ℕ
unfolding next starts_with
index_of pat [] = if starts_with pat [] then some 0 else none
index_of pat (c ∷ t) = if starts_with pat (c ∷ t) then some 0 else next (index_of pat t)

-- `t.slice(from, to)` for positions that are not negative
abbrev pub slice : ℕ → ℕ → Text → Text
slice from to t = take (to - from) (drop from t)

abbrev pub begin_marker : Text → Text
begin_marker label = codes "-----BEGIN " ++ (label ++ codes "-----")

abbrev pub end_marker : Text → Text
end_marker label = codes "-----END " ++ (label ++ codes "-----")

unfoldable pub missing_block : {A : Type 0} → Text → Result A
missing_block label = err (thrown (codes "Missing " ++ label ++ codes " PEM block."))

unfoldable pub body_to_bytes : Text → Text → Result Bytes
body_to_bytes label [] = err (thrown (codes "Empty " ++ label ++ codes " PEM block."))
body_to_bytes label (c ∷ body) = base64_to_bytes (c ∷ body)

unfoldable pub block_to_bytes : Text → Text → Option ℕ → Option ℕ → Result Bytes
unfolding missing_block body_to_bytes
block_to_bytes pem label none end_index = missing_block label
block_to_bytes pem label (some begin_index) none = missing_block label
block_to_bytes pem label (some begin_index) (some end_index) =
    if leb end_index begin_index
    then missing_block label
    else body_to_bytes label (
        keep (λ c. not (is_space c))
          (slice (begin_index + length (begin_marker label)) end_index pem))

unfoldable pub pem_to_bytes : Text → Text → Result Bytes
unfolding block_to_bytes
pem_to_bytes pem label =
    block_to_bytes pem label (index_of (begin_marker label) pem) (index_of (end_marker label) pem)
