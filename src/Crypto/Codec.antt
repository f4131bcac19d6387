-- ===== src/Crypto/Codec.antt =====
-- static/crypto.js, the conversions between bytes and base64 or base64url texts.
pub mod Chunks
pub mod RoundTrip
pub mod Malformed
pub mod Standard
use key_bank.Base.{
  ℕ, zero, suc, ◌+◌, ◌-◌, ◌%◌, Bool, true, false, ◌||◌, ◌&&◌, List, [], ◌∷◌, ◌++◌, map, Text, Bytes,
  codes, Error, unfinished, Result, ok, err, thrown, ◌>>=◌, length, take, drop, replicate, all, ltb,
  leb, ◌==◌, if◌then◌else◌,
}
use key_bank.Js.Base64.{btoa, atob}
use key_bank.Js.Url.{is_alphanumeric}

-- `/^[A-Za-z0-9_-]+$/`
abbrev pub is_base64_url : ℕ → Bool
is_base64_url c = is_alphanumeric c || c == b'_' || c == b'-'

unfoldable pub base64_url_pattern : Text → Bool
base64_url_pattern [] = false
base64_url_pattern (c ∷ t) = all is_base64_url (c ∷ t)

unfoldable pub chunk_size_for_plaintext : ℕ → ℕ
chunk_size_for_plaintext n = if leb n 0x80 then 0x80 else if leb n 0x800 then 0x800 else 0x8000

-- The loop of `bytesToBase64`: a slice from `i` is appended in each round.
unfoldable pub chunk_loop : ℕ → Bytes → ℕ → ℕ → Text → Result Text
chunk_loop zero bytes chunk_size i binary = err unfinished
chunk_loop (suc fuel) bytes chunk_size i binary =
    let rest =
      chunk_loop fuel bytes chunk_size (i + chunk_size)
        (binary ++ take chunk_size (drop i bytes)) in
    if ltb i (length bytes) then rest else ok binary

unfoldable pub bytes_to_base64 : Bytes → ℕ → Result Text
bytes_to_base64 bytes chunk_size = do
  binary ← chunk_loop (suc (length bytes)) bytes chunk_size 0 []
  btoa binary

-- `replace(/x/g, "y")` for characters x and y.
abbrev pub replace_char : ℕ → ℕ → Text → Text
replace_char x y = map (λ c. if c == x then y else c)

-- The stores of a binary string's code units in a `Uint8Array`.
abbrev pub to_uint8 : Text → Bytes
to_uint8 = map (λ c. c % 256)

abbrev pub pad_length : Text → ℕ
pad_length t = if length t % 4 == 0 then 0 else 4 - length t % 4

unfoldable pub base64_to_bytes : Text → Result Bytes
base64_to_bytes base64 = do
  let normalized = replace_char b'_' b'/' (replace_char b'-' b'+' base64)
  binary ← atob (normalized ++ replicate (pad_length normalized) b'=')
  ok (to_uint8 binary)

strip_before : ℕ → Text → Text
strip_before c [] = if c == b'=' then [] else c ∷ []
strip_before c (d ∷ t) = c ∷ d ∷ t

-- `replace(/=+$/g, "")`
unfoldable pub strip_equals : Text → Text
unfolding strip_before
strip_equals [] = []
strip_equals (c ∷ t) = strip_before c (strip_equals t)

unfoldable pub bytes_to_base64_url : Bytes → ℕ → Result Text
bytes_to_base64_url bytes chunk_size = do
  base64 ← bytes_to_base64 bytes chunk_size
  ok (strip_equals (replace_char b'/' b'_' (replace_char b'+' b'-' base64)))

unfoldable pub base64_url_to_bytes : Text → Result Bytes
base64_url_to_bytes value =
    if base64_url_pattern value
    then base64_to_bytes value
    else err (thrown (codes "Invalid base64url data."))
