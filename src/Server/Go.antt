-- ===== src/Server/Go.antt =====
-- What the server uses of Go: errors as values, signed numbers, and hexadecimal text. A string is the
-- list of its bytes, and a time a number of nanoseconds.
use key_bank.Base.{ℕ, ◌+◌, ◌-◌, ◌/◌, ◌%◌, [], ◌∷◌, Text, Bytes, ltb, if◌then◌else◌}

-- A result with an error; what the error says is only logged.
pub data Try {ℓ} (A : Type ℓ) : Type ℓ where
  fails : Try A
  gives : A → Try A

pub data ℤ : Type 0 where
  pos negsuc : ℕ → ℤ

abbrev pub second : ℕ
second = 1000000000

abbrev pub hex_lower : ℕ → ℕ
hex_lower n = if ltb n 10 then b'0' + n else b'a' + (n - 10)

-- `hex.EncodeToString`
unfoldable pub hex : Bytes → Text
hex [] = []
hex (b ∷ bs) = hex_lower (b / 16) ∷ hex_lower (b % 16) ∷ hex bs
