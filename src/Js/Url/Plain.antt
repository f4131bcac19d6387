-- ===== src/Js/Url/Plain.antt =====
-- Texts of characters that stand for themselves pass through a form unchanged.
use key_bank.Base.{
  ℕ, ◌<◌, ◌≡◌, ◌≢◌, refl, ap, ◌∙◌, List, [], ◌∷◌, ◌++◌, map, append_assoc, true, Text, All,
  All-append, arith, none,
}
use key_bank.Js.Utf8.Ascii.{IsAscii, encode_ascii, decode_ascii}
use key_bank.Js.Url.{
  is_form_plain, form_encode, Pair, serialize_pair, serialize, split, cut, escaped, percent_decode,
  plus_to_space, form_decode, parse_pieces, drop_question_mark, parse,
}

abbrev pub IsPlain : ℕ → Type 0
IsPlain c = is_form_plain c ≡ true

plain_char :
    (c : ℕ)
    → IsPlain c
    → (c < 0x80) × (c ≢ b'&') × (c ≢ b'=') × (c ≢ b'%') × (c ≢ b'+') × (c ≢ b' ') × (c ≢ b'?')
plain_char c h = ground arith

pub Plain-IsAscii : (t : Text) → All IsPlain t → All IsAscii t
Plain-IsAscii [] h = tt
Plain-IsAscii (c ∷ t) (hc, h) = ((plain_char c hc).0, Plain-IsAscii t h)

form_encode_plain : (t : Text) → All IsPlain t → form_encode t ≡ t
unfolding form_encode
form_encode_plain [] h = refl
form_encode_plain (c ∷ t) (hc, h) = ground (arith, plain_char c hc, form_encode_plain t h)

escaped_plain : (c d e : ℕ) → c ≢ b'%' → escaped c d e ≡ none
unfolding escaped
escaped_plain c d e h = ground arith

percent_decode_plain : (t : Text) → All IsPlain t → percent_decode t ≡ t
unfolding percent_decode
percent_decode_plain [] h = refl
percent_decode_plain (c ∷ []) h = refl
percent_decode_plain (c ∷ d ∷ []) h = refl
percent_decode_plain (c ∷ d ∷ e ∷ t) (hc, h) =
    rw (escaped_plain c d e (plain_char c hc).3, percent_decode)
      (ap (λ l. c ∷ l) (percent_decode_plain (d ∷ e ∷ t) h))

plus_plain : (t : Text) → All IsPlain t → map plus_to_space t ≡ t
plus_plain [] h = refl
plus_plain (c ∷ t) (hc, h) = ground (arith, plain_char c hc, plus_plain t h)

form_decode_plain : (t : Text) → All IsPlain t → form_decode t ≡ t
unfolding form_decode
form_decode_plain t h =
    rw (plus_plain t h, percent_decode_plain t h) (decode_ascii t (Plain-IsAscii t h))

split_last : (t : Text) → All (λ c. c ≢ b'&') t → split b'&' t ≡ t ∷ []
unfolding split
split_last [] h = refl
split_last (c ∷ t) (hc, h) = ground (arith, split_last t h)

split-append : (t s : Text) → All (λ c. c ≢ b'&') t → split b'&' (t ++ b'&' ∷ s) ≡ t ∷ split b'&' s
unfolding split
split-append [] s h = refl
split-append (c ∷ t) s (hc, h) = ground (arith, split-append t s h)

cut-append : (n v : Text) → All IsPlain n → cut (n ++ b'=' ∷ v) ≡ (n, v)
unfolding cut
cut-append [] v h = refl
cut-append (c ∷ n) v (hc, h) = ground (arith, plain_char c hc, cut-append n v h)

abbrev pub IsPlainPair : Pair → Type 0
IsPlainPair (name, value) = (name ≢ []) × All IsPlain name × All IsPlain value

serialize_pair_plain :
    (n v : Text) → All IsPlain n → All IsPlain v → serialize_pair (n, v) ≡ n ++ b'=' ∷ v
unfolding serialize_pair
serialize_pair_plain n v hn hv =
    rw
      (
        encode_ascii n (Plain-IsAscii n hn),
        encode_ascii v (Plain-IsAscii v hv),
        form_encode_plain n hn,
        form_encode_plain v hv,
      )
      refl

no_separator : (n v : Text) → All IsPlain n → All IsPlain v → All (λ c. c ≢ b'&') (n ++ b'=' ∷ v)
no_separator [] [] hn hv = (omega arith, tt)
no_separator [] (c ∷ v) hn (hc, hv) =
    (omega arith, ((plain_char c hc).1, (no_separator [] v hn hv).1))
no_separator (c ∷ n) v (hc, hn) hv = ((plain_char c hc).1, no_separator n v hn hv)

parse_pieces-cons :
    (n v : Text) (ps : List Text)
    → IsPlainPair (n, v)
    → parse_pieces ((n ++ b'=' ∷ v) ∷ ps) ≡ (n, v) ∷ parse_pieces ps
unfolding parse_pieces
parse_pieces-cons [] v ps (h, _, _) = absurd (h refl)
parse_pieces-cons (c ∷ n) v ps (_, hn, hv) =
    rw (cut-append (c ∷ n) v hn, form_decode_plain (c ∷ n) hn, form_decode_plain v hv) refl

serialize_one : (p : Pair) → IsPlainPair p → serialize (p ∷ []) ≡ p.0 ++ b'=' ∷ p.1
unfolding serialize
serialize_one (n, v) (_, hn, hv) = serialize_pair_plain n v hn hv

serialize-cons :
    (p q : Pair) (ps : List Pair)
    → IsPlainPair p
    → serialize (p ∷ q ∷ ps) ≡ (p.0 ++ b'=' ∷ p.1) ++ b'&' ∷ serialize (q ∷ ps)
serialize-cons (n, v) q ps (_, hn, hv) =
    unfold serialize in ap (λ t. t ++ b'&' ∷ serialize (q ∷ ps)) (serialize_pair_plain n v hn hv)

pieces-serialize :
    (ps : List Pair) → All IsPlainPair ps → parse_pieces (split b'&' (serialize ps)) ≡ ps
pieces-serialize [] h = unfold serialize split parse_pieces in refl
pieces-serialize (p ∷ []) (h, _) =
    rw
      (
        serialize_one p h,
        split_last _ (no_separator p.0 p.1 h.1 h.2),
        parse_pieces-cons p.0 p.1 [] h,
      )
      (unfold parse_pieces in refl)
pieces-serialize (p ∷ q ∷ ps) (h, hs) =
    rw
      (
        serialize-cons p q ps h,
        split-append _ (serialize (q ∷ ps)) (no_separator p.0 p.1 h.1 h.2),
        parse_pieces-cons p.0 p.1 _ h,
      )
      (ap (λ l. p ∷ l) (pieces-serialize (q ∷ ps) hs))

pair-IsAscii : (p : Pair) → IsPlainPair p → All IsAscii (p.0 ++ b'=' ∷ p.1)
pair-IsAscii p h =
    All-append IsAscii p.0 (b'=' ∷ p.1) (Plain-IsAscii p.0 h.1) (omega arith, Plain-IsAscii p.1 h.2)

serialize-IsAscii : (ps : List Pair) → All IsPlainPair ps → All IsAscii (serialize ps)
serialize-IsAscii [] h = unfold serialize in tt
serialize-IsAscii (p ∷ []) (h, _) = rw (serialize_one p h) (pair-IsAscii p h)
serialize-IsAscii (p ∷ q ∷ ps) (h, hs) =
    rw (serialize-cons p q ps h)
      (All-append IsAscii _ _ (pair-IsAscii p h) (omega arith, serialize-IsAscii (q ∷ ps) hs))

keep_first : (n s : Text) → n ≢ [] → All IsPlain n → drop_question_mark (n ++ s) ≡ n ++ s
keep_first [] s h hn = absurd (h refl)
keep_first (c ∷ n) s h (hc, hn) = ground (arith, plain_char c hc)

-- The first character is a plain one, and so no question mark.
serialize_first :
    (ps : List Pair) → All IsPlainPair ps → drop_question_mark (serialize ps) ≡ serialize ps
serialize_first [] h = unfold serialize in refl
serialize_first (p ∷ []) (h, _) = rw (serialize_one p h) (keep_first p.0 _ h.0 h.1)
serialize_first (p ∷ q ∷ ps) (h, _) =
    rw (serialize-cons p q ps h, append_assoc) (keep_first p.0 _ h.0 h.1)

-- What is written with plain names and values is read back as it was.
pub parse-serialize : (ps : List Pair) → All IsPlainPair ps → parse (serialize ps) ≡ ps
unfolding parse
parse-serialize ps h =
    rw (serialize_first ps h, encode_ascii _ (serialize-IsAscii ps h)) (pieces-serialize ps h)

-- The text of plain pairs: names, `=`, values, with `&` between.
abbrev pub joined : List Pair → Text
joined [] = []
joined (p ∷ []) = p.0 ++ b'=' ∷ p.1
joined (p ∷ q ∷ ps) = (p.0 ++ b'=' ∷ p.1) ++ b'&' ∷ joined (q ∷ ps)

pub serialize_plain : (ps : List Pair) → All IsPlainPair ps → serialize ps ≡ joined ps
serialize_plain [] h = unfold serialize in refl
serialize_plain (p ∷ []) (h, _) = serialize_one p h
serialize_plain (p ∷ q ∷ ps) (h, hs) =
    serialize-cons p q ps h
    ∙ ap (λ t. (p.0 ++ b'=' ∷ p.1) ++ b'&' ∷ t) (serialize_plain (q ∷ ps) hs)
