-- ===== src/Js/Number/RoundTrip.antt =====
-- Decimal text, read back.
use key_bank.Base.{
  true, false, ℕ, zero, suc, ◌+◌, ◌-◌, ◌*◌, ◌/◌, ◌%◌, ◌<◌, ◌≡◌, ◌∙◌, ap, [], ◌∷◌, Text, ltb,
  Bool-cases, inl, inr, arith,
}
use key_bank.Js.Number.{decimal_from, decimal}

-- The value of digits after a number.
abbrev pub value : ℕ → Text → ℕ
value n [] = n
value n (d ∷ ds) = value (n * 10 + (d - b'0')) ds

value-decimal_from :
    (fuel n : ℕ) (ds : Text) → n < fuel → value 0 (decimal_from fuel n ds) ≡ value n ds
unfolding decimal_from
value-decimal_from zero n ds h = absurd (omega arith)
value-decimal_from (suc fuel) n ds h = elim (Bool-cases (ltb n 10)) [
  | inl small ↦ rw small (ap (λ m. value m ds) (last small))
  | inr large ↦ rw large (
      value-decimal_from fuel (n / 10) ((b'0' + n % 10) ∷ ds) (fewer large)
      ∙ ap (λ m. value m ds) next)
]
  where
    last : ltb n 10 ≡ true → 0 * 10 + (b'0' + n % 10 - b'0') ≡ n
    last small = ground arith

    fewer : ltb n 10 ≡ false → n / 10 < fuel
    fewer large = ground arith

    next : n / 10 * 10 + (b'0' + n % 10 - b'0') ≡ n
    next = ground arith

pub value-decimal : (n : ℕ) → value 0 (decimal n) ≡ n
unfolding decimal
value-decimal n = value-decimal_from (suc n) n [] (omega arith)
