-- ===== src/Crypto/Pem/RoundTrip.antt =====
-- A PEM block is found among the text round it, and its body is decoded.
use key_bank.Base.{
  ℕ, suc, ◌+◌, ◌-◌, ◌≡◌, ◌≢◌, refl, ap, ◌∙◌, sym, [], ◌∷◌, ◌++◌, append_assoc, true, false, not,
  Option, none, some, Text, Bytes, ok, codes, length, length-append, take-append, drop-append, All,
  arith, leb, ne→==,
}
use key_bank.Js.Base64
use key_bank.Js.Base64.{keep}
use key_bank.Js.Base64.RoundTrip.{IsByte}
use key_bank.Crypto.Codec.{base64_to_bytes}
use key_bank.Crypto.Codec.Standard.{base64_to_bytes-encode, encode-ne-nil}
use key_bank.Crypto.Pem.{
  is_space, starts_with, next, index_of, begin_marker, end_marker, body_to_bytes, pem_to_bytes,
  slice,
}

abbrev pub IsNoDash : ℕ → Type 0
IsNoDash c = c ≢ b'-'

-- A found position, moved on.
abbrev shift : ℕ → Option ℕ → Option ℕ
shift n none = none
shift n (some i) = some (n + i)

shift-next : (n : ℕ) (o : Option ℕ) → next (shift n o) ≡ shift (suc n) o
unfolding next
shift-next n none = refl
shift-next n (some i) = ap some (omega arith)

shift-shift : (n k : ℕ) (o : Option ℕ) → shift n (shift k o) ≡ shift (n + k) o
shift-shift n k none = refl
shift-shift n k (some i) = ap some (omega arith)

shift_zero : (o : Option ℕ) → shift 0 o ≡ o
shift_zero none = refl
shift_zero (some i) = ap some (omega arith)

starts_with-append : (pat t : Text) → starts_with pat (pat ++ t) ≡ true
unfolding starts_with
starts_with-append [] t = refl
starts_with-append (c ∷ pat) t = ground (arith, starts_with-append pat t)

-- The pattern begins with a dash, so that a text without dashes is passed over.
index_of_skip :
    (pat s t : Text)
    → All IsNoDash s
    → index_of (b'-' ∷ pat) (s ++ t) ≡ shift (length s) (index_of (b'-' ∷ pat) t)
unfolding index_of
index_of_skip pat [] t h = sym (shift_zero _)
index_of_skip pat (c ∷ s) t (hc, h) =
    rw (ne→== b'-' c (λ e. hc (sym e)), index_of_skip pat s t h) (shift-next _ _)

index_of_here : (pat t : Text) → index_of (b'-' ∷ pat) ((b'-' ∷ pat) ++ t) ≡ some 0
unfolding index_of
index_of_here pat t = rw (starts_with-append pat t) refl

next-eq-shift : (o : Option ℕ) → next o ≡ shift 1 o
unfolding next
next-eq-shift none = refl
next-eq-shift (some i) = ap some (omega arith)

-- What the end marker's search passes over in a block's first line.
end_after_begin :
    (pat t : Text)
    → index_of (codes "-----END " ++ pat) (codes "-----BEGIN " ++ t)
      ≡ shift 11 (index_of (codes "-----END " ++ pat) t)
unfolding index_of codes
end_after_begin pat t = simp (next-eq-shift, shift-shift)

end_after_line :
    (pat t : Text)
    → index_of (codes "-----END " ++ pat) (codes "-----" ++ 10 ∷ t)
      ≡ shift 6 (index_of (codes "-----END " ++ pat) t)
unfolding index_of codes
end_after_line pat t = simp (next-eq-shift, shift-shift)

-- A block with a label on lines of its own, in a text.
abbrev pub block : Text → Text → Text → Text → Text
block label before body after =
    before ++ (begin_marker label ++ (10 ∷ (body ++ (end_marker label ++ after))))

found_begin :
    (label before rest : Text)
    → All IsNoDash before
    → index_of (begin_marker label) (before ++ (begin_marker label ++ rest)) ≡ some (length before)
unfolding codes
found_begin label before rest h =
    rw (index_of_skip _ before _ h, index_of_here) (ap some (omega arith))

end_skip :
    (label s t : Text)
    → All IsNoDash s
    → index_of (end_marker label) (s ++ t) ≡ shift (length s) (index_of (end_marker label) t)
unfolding codes
end_skip label s t h = index_of_skip _ s t h

end_here : (label t : Text) → index_of (end_marker label) (end_marker label ++ t) ≡ some 0
unfolding codes
end_here label t = index_of_here _ t

module _ (label before body after : Text) where
  first_line :
      begin_marker label ++ (10 ∷ (body ++ (end_marker label ++ after)))
      ≡ codes "-----BEGIN "
        ++ (label ++ (codes "-----" ++ (10 ∷ (body ++ (end_marker label ++ after)))))
  first_line =
      append_assoc (codes "-----BEGIN ") _ _
      ∙ ap (λ t. codes "-----BEGIN " ++ t) (append_assoc label _ _)

  end_in_block :
      All IsNoDash label
      → All IsNoDash body
      → index_of
          (end_marker label)
          (begin_marker label ++ (10 ∷ (body ++ (end_marker label ++ after))))
        ≡ some (length label + length body + 17)
  end_in_block hl h =
      ap (index_of (end_marker label)) first_line
      ∙ end_after_begin _ _
      ∙ ap (shift 11) (
          end_skip label label _ hl
          ∙ ap (shift (length label)) (
              end_after_line _ _
              ∙ ap (shift 6)
                  (end_skip label body _ h ∙ ap (shift (length body)) (end_here label after))))
      ∙ ap some (omega arith)

  found_end :
      All IsNoDash label
      → All IsNoDash before
      → All IsNoDash body
      → index_of (end_marker label) (block label before body after)
        ≡ some (length before + (length label + length body + 17))
  found_end hl hb h = end_skip label before _ hb ∙ ap (shift (length before)) (end_in_block hl h)

length-begin_marker : (label : Text) → length (begin_marker label) ≡ length label + 16
length-begin_marker label = omega (
  arith,
  length-append {0} (codes "-----BEGIN ") (label ++ codes "-----"),
  length-append {0} label (codes "-----"),
  dashes,
)
  where
    dashes : (length (codes "-----BEGIN ") ≡ 11) × (length (codes "-----") ≡ 5)
    dashes = unfold codes in (refl, refl)

slice-append :
    (a b c : Text) (i j : ℕ)
    → i ≡ length a
    → j ≡ length a + length b
    → slice i j (a ++ (b ++ c)) ≡ b
slice-append a b c i j hi hj =
    let width : j - i ≡ length b = omega arith in
    rw (width, hi, drop-append a (b ++ c)) (take-append b c)

-- What lies between the markers.
slice_body :
    (label before body after : Text)
    → slice
        (length before + length (begin_marker label))
        (length before + (length label + length body + 17))
        (block label before body after)
      ≡ 10 ∷ body
slice_body label before body after =
    ap (slice _ _) (sym (append_assoc before (begin_marker label) _))
    ∙ slice-append (before ++ begin_marker label) (10 ∷ body) (end_marker label ++ after) _ _
        (sym (length-append before (begin_marker label)))
        (omega (arith, length-append {0} before (begin_marker label), length-begin_marker label))

later : (a n : ℕ) → leb (a + (n + 17)) a ≡ false
later a n = ground arith

-- White space inside the body is dropped, and the rest is decoded; an empty body is an error.
pub pem_to_bytes-block :
    (label before body after : Text)
    → All IsNoDash label
    → All IsNoDash before
    → All IsNoDash body
    → pem_to_bytes (block label before body after) label
      ≡ body_to_bytes label (keep (λ c. not (is_space c)) body)
unfolding pem_to_bytes keep
pem_to_bytes-block label before body after hl hb h =
    rw
      (
        found_begin label before _ hb,
        found_end label before body after hl hb h,
        later (length before) (length label + length body),
        slice_body label before body after,
      )
      refl

not_empty : (label t : Text) → t ≢ [] → body_to_bytes label t ≡ base64_to_bytes t
unfolding body_to_bytes
not_empty label [] ne = absurd (ne refl)
not_empty label (c ∷ t) ne = refl

body_to_bytes-encode :
    (label : Text) (bs : Bytes)
    → All IsByte bs
    → bs ≢ []
    → body_to_bytes label (Base64.encode bs) ≡ ok bs
body_to_bytes-encode label bs h ne =
    not_empty label (Base64.encode bs) (encode-ne-nil bs ne) ∙ base64_to_bytes-encode bs h

-- The base64 text of bytes, at least one, with white space put in at will, is read back from a PEM
-- block, if the label, the text before the block and its body hold no dash.
pub pem_to_bytes-encode :
    (label before body after : Text) (bs : Bytes)
    → All IsNoDash label
    → All IsNoDash before
    → All IsNoDash body
    → All IsByte bs
    → bs ≢ []
    → keep (λ c. not (is_space c)) body ≡ Base64.encode bs
    → pem_to_bytes (block label before body after) label ≡ ok bs
pem_to_bytes-encode label before body after bs hl hb h hbs ne e =
    pem_to_bytes-block label before body after hl hb h
    ∙ ap (body_to_bytes label) e
    ∙ body_to_bytes-encode label bs hbs ne
