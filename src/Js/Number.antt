-- ===== src/Js/Number.antt =====
-- Numbers as decimal text, as template literals and `JSON.stringify` write them.
pub mod RoundTrip
use key_bank.Base.{ℕ, zero, suc, ◌+◌, ◌/◌, ◌%◌, [], ◌∷◌, Text, ltb, if◌then◌else◌}

decimal_from : ℕ → ℕ → Text → Text
decimal_from zero n digits = digits
decimal_from (suc fuel) n digits =
    let longer = (b'0' + n % 10) ∷ digits in
    let rest = decimal_from fuel (n / 10) longer in if ltb n 10 then longer else rest

-- A number has fewer digits than its value and one more.
unfoldable pub decimal : ℕ → Text
unfolding decimal_from
decimal n = decimal_from (suc n) n []
