-- ===== src/Js/Base64/Malformed.antt =====
-- `atob` on a text with one digit left over and padding up to a whole group.
use key_bank.Base.{
  ℕ, ◌%◌, ◌≡◌, refl, [], ◌∷◌, ◌++◌, append_assoc, Text, Option, none, some, length, length-append,
  All, All-append, arith, eq→==,
}
use key_bank.Js.Base64.{
  atob, drop_equals, drop_padding, digit_value, cons_value, digit_values, decode_digits,
  invalid_character,
}
use key_bank.Js.Base64.RoundTrip.{IsKept, keep-all, drop_equals-snoc}

cons_value-none : (o : Option ℕ) → cons_value o none ≡ none
unfolding cons_value
cons_value-none none = refl
cons_value-none (some v) = refl

-- `=` is no digit.
digit_values-snoc : (t : Text) → digit_values (t ++ b'=' ∷ []) ≡ none
unfolding digit_values
digit_values-snoc [] = refl
digit_values-snoc (c ∷ t) = rw (digit_values-snoc t) (cons_value-none (digit_value c))

drop_three :
    (t : Text) → length t % 4 ≡ 1 → drop_padding (t ++ b'=' ∷ b'=' ∷ b'=' ∷ []) ≡ t ++ b'=' ∷ []
drop_three t h =
    let whole : length (t ++ b'=' ∷ b'=' ∷ b'=' ∷ []) % 4 ≡ 0 =
      omega (arith, length-append t (b'=' ∷ b'=' ∷ b'=' ∷ [])) in
    unfold drop_padding in rw (eq→== _ _ whole) (two t)
  where
    two : (t : Text) → drop_equals (drop_equals (t ++ b'=' ∷ b'=' ∷ b'=' ∷ [])) ≡ t ++ b'=' ∷ []
    two t =
        rw
          (
            ← append_assoc t (b'=' ∷ b'=' ∷ []) (b'=' ∷ []),
            drop_equals-snoc,
            ← append_assoc t (b'=' ∷ []) (b'=' ∷ []),
          )
          (drop_equals-snoc (t ++ b'=' ∷ []))

pub atob_left_over :
    (t : Text)
    → All IsKept t
    → length t % 4 ≡ 1
    → atob (t ++ b'=' ∷ b'=' ∷ b'=' ∷ []) ≡ invalid_character
unfolding atob
atob_left_over t h one =
    rw
      (
        keep-all _ _ (All-append IsKept t (b'=' ∷ b'=' ∷ b'=' ∷ []) h (refl, (refl, (refl, tt)))),
        drop_three t one,
      )
      (no_digits t one)
  where
    no_digits : (t : Text) → length t % 4 ≡ 1 → decode_digits (t ++ b'=' ∷ []) ≡ invalid_character
    no_digits t one = rw (digit_values-snoc t) (ground (arith, length-append t (b'=' ∷ [])))
