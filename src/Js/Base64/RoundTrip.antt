-- ===== src/Js/Base64/RoundTrip.antt =====
-- `atob` undoes `btoa`, also where `=` has been taken off and put back.
use key_bank.Base.{
  ℕ, zero, suc, ◌+◌, ◌*◌, ◌/◌, ◌%◌, ◌<◌, ◌≡◌, refl, ap, ◌∙◌, ◌≢◌, Bool, true, false, not, List, [],
  ◌∷◌, ◌++◌, map, append-nil, append_assoc, some, Text, Bytes, ok, length, length-append, replicate,
  All, All-append, arith, ne→==,
}
use key_bank.Js.Base64.{
  sextets, padding, digit, digit_value, encode, is_ascii_whitespace, keep, drop_equals,
  drop_padding, cons_value, digit_values, unsextets, decode_digits, atob,
}

abbrev pub IsByte : ℕ → Type 0
IsByte c = c < 256

abbrev pub IsSextet : ℕ → Type 0
IsSextet n = n < 64

pub sextets-IsSextet : (bs : Bytes) → All IsByte bs → All IsSextet (sextets bs)
unfolding sextets
sextets-IsSextet [] h = tt
sextets-IsSextet (a ∷ []) h = omega arith
sextets-IsSextet (a ∷ b ∷ []) h = omega arith
sextets-IsSextet (a ∷ b ∷ c ∷ r) (ha, (hb, (hc, h))) =
    (omega arith, (omega arith, (omega arith, (omega arith, sextets-IsSextet r h))))

pub unsextets-sextets : (bs : Bytes) → All IsByte bs → unsextets (sextets bs) ≡ bs
unfolding sextets unsextets
unsextets-sextets [] h = refl
unsextets-sextets (a ∷ []) h = ground arith
unsextets-sextets (a ∷ b ∷ []) h = ground arith
unsextets-sextets (a ∷ b ∷ c ∷ r) (ha, (hb, (hc, h))) = ground (arith, unsextets-sextets r h)

-- How many digits the bytes have.
pub length-sextets : (bs : Bytes) → length (sextets bs) ≡ (length bs * 4 + 2) / 3
unfolding sextets
length-sextets [] = refl
length-sextets (a ∷ []) = refl
length-sextets (a ∷ b ∷ []) = refl
length-sextets (a ∷ b ∷ c ∷ r) = omega (arith, length-sextets r)

pub digit_value-digit : (n : ℕ) → n < 64 → digit_value (digit n) ≡ some n
unfolding digit digit_value
digit_value-digit n h = ground arith

pub digit_values-map : (ns : List ℕ) → All IsSextet ns → digit_values (map digit ns) ≡ some ns
unfolding digit_values cons_value
digit_values-map [] h = refl
digit_values-map (n ∷ ns) (hn, h) = ground (arith, digit_value-digit n hn, digit_values-map ns h)

-- A digit is no white space and no `=`.
digit_plain : (n : ℕ) → n < 64 → (is_ascii_whitespace (digit n) ≡ false) × (digit n ≢ b'=')
unfolding digit
digit_plain n h = ground arith

abbrev pub IsPlain : ℕ → Type 0
IsPlain c = (is_ascii_whitespace c ≡ false) × (c ≢ b'=')

pub digits-IsPlain : (ns : List ℕ) → All IsSextet ns → All IsPlain (map digit ns)
digits-IsPlain [] h = tt
digits-IsPlain (n ∷ ns) (hn, h) = (digit_plain n hn, digits-IsPlain ns h)

pub keep-all : (p : ℕ → Bool) (t : Text) → All (λ c. p c ≡ true) t → keep p t ≡ t
unfolding keep
keep-all p [] h = refl
keep-all p (c ∷ t) (hc, h) = ground (arith, keep-all p t h)

keep-append : (p : ℕ → Bool) (s t : Text) → keep p (s ++ t) ≡ keep p s ++ keep p t
unfolding keep
keep-append p [] t = refl
keep-append p (c ∷ s) t = ground (arith, keep-append p s t)

drop_equals_plain : (t : Text) → All IsPlain t → drop_equals t ≡ t
unfolding drop_equals
drop_equals_plain [] h = refl
drop_equals_plain (c ∷ []) h = ground arith
drop_equals_plain (c ∷ d ∷ t) (hc, h) = ap (λ l. c ∷ l) (drop_equals_plain (d ∷ t) h)

pub drop_equals-snoc : (t : Text) → drop_equals (t ++ b'=' ∷ []) ≡ t
unfolding drop_equals
drop_equals-snoc [] = refl
drop_equals-snoc (c ∷ []) = refl
drop_equals-snoc (c ∷ d ∷ t) = ap (λ l. c ∷ l) (drop_equals-snoc (d ∷ t))

-- The texts that `atob` is called with: digits, and the padding that makes whole groups.
drop_padding-append :
    (t : Text) (n : ℕ)
    → All IsPlain t
    → n < 3
    → (length t + n) % 4 ≡ 0
    → drop_padding (t ++ replicate n b'=') ≡ t
unfolding drop_padding
drop_padding-append t zero h small whole = rw append-nil (ground (arith, drop_equals_plain t h))
drop_padding-append t (suc zero) h small whole =
    ground (arith, drop_equals_plain t h, drop_equals-snoc t, length-append t (b'=' ∷ []))
drop_padding-append t (suc (suc zero)) h small whole = ground (
  arith,
  append_assoc t (b'=' ∷ []) (b'=' ∷ []),
  drop_equals-snoc (t ++ b'=' ∷ []),
  drop_equals-snoc t,
  length-append t (b'=' ∷ b'=' ∷ []),
)
drop_padding-append t (suc (suc (suc n))) h small whole = absurd (omega arith)

abbrev pub IsKept : ℕ → Type 0
IsKept c = not (is_ascii_whitespace c) ≡ true

digits-IsKept : (ns : List ℕ) → All IsSextet ns → All IsKept (map digit ns)
digits-IsKept [] h = tt
digits-IsKept (n ∷ ns) (hn, h) = (ap not (digit_plain n hn).0, digits-IsKept ns h)

padding-IsKept : (n : ℕ) → All IsKept (replicate n b'=')
padding-IsKept zero = tt
padding-IsKept (suc n) = (refl, padding-IsKept n)

keep_padded :
    (ns : List ℕ) (n : ℕ)
    → All IsSextet ns
    → keep (λ c. not (is_ascii_whitespace c)) (map digit ns ++ replicate n b'=')
      ≡ map digit ns ++ replicate n b'='
keep_padded ns n h = keep-all _ _ (All-append IsKept _ _ (digits-IsKept ns h) (padding-IsKept n))

pub length-digits : (ns : List ℕ) → length (map digit ns) ≡ length ns
length-digits [] = refl
length-digits (n ∷ ns) = ap suc (length-digits ns)

decode_digits-map :
    (ns : List ℕ)
    → All IsSextet ns
    → length ns % 4 ≢ 1
    → decode_digits (map digit ns) ≡ ok (unsextets ns)
unfolding decode_digits
decode_digits-map ns h full = rw (length-digits ns, ne→== _ _ full, digit_values-map ns h) refl

pub atob-digits :
    (ns : List ℕ) (n : ℕ)
    → All IsSextet ns
    → n < 3
    → (length ns + n) % 4 ≡ 0
    → atob (map digit ns ++ replicate n b'=') ≡ ok (unsextets ns)
unfolding atob
atob-digits ns n h small whole =
    rw
      (
        keep_padded ns n h,
        drop_padding-append (map digit ns) n (digits-IsPlain ns h) small
            (omega (arith, length-digits ns)),
      )
      (decode_digits-map ns h (omega arith))

whole_groups : (bs : Bytes) → (length (sextets bs) + padding (length bs)) % 4 ≡ 0
whole_groups bs = omega (arith, length-sextets bs)

-- `atob` gives back the bytes that `btoa` has written.
pub atob-encode : (bs : Bytes) → All IsByte bs → atob (encode bs) ≡ ok bs
unfolding encode
atob-encode bs h =
    atob-digits (sextets bs) (padding (length bs)) (sextets-IsSextet bs h) (omega arith)
      (whole_groups bs)
    ∙ ap ok (unsextets-sextets bs h)
