-- ===== src/Js/Url.antt =====
-- `encodeURIComponent`, and `URLSearchParams` as a list of pairs (ECMAScript and the URL standard).
pub mod Plain
pub mod Component
pub mod Equality
use key_bank.Base.{
  ℕ, zero, suc, ◌+◌, ◌-◌, ◌*◌, ◌/◌, ◌%◌, Bool, true, false, ◌||◌, ◌&&◌, not, List, [], ◌∷◌, ◌++◌,
  map, Option, none, some, Text, Bytes, codes, Result, ok, err, thrown, leb, ltb, ◌==◌,
  if◌then◌else◌,
}
use key_bank.Js.Utf8
use key_bank.Js.Utf8.{is_high_surrogate, is_low_surrogate}

unfoldable pub text_eq : Text → Text → Bool
text_eq [] [] = true
text_eq (a ∷ s) (b ∷ t) = a == b && text_eq s t
text_eq _ _ = false

abbrev pub is_alphanumeric : ℕ → Bool
is_alphanumeric c =
    (leb b'0' c && leb c b'9') || (leb b'A' c && leb c b'Z') || (leb b'a' c && leb c b'z')

unfoldable pub hex_digit : ℕ → ℕ
hex_digit n = if ltb n 10 then b'0' + n else b'A' + (n - 10)

unfoldable pub percent : ℕ → Text
unfolding hex_digit
percent b = b'%' ∷ hex_digit (b / 16) ∷ hex_digit (b % 16) ∷ []

-- Letters, digits and - _ . ! ~ * ' ( )
abbrev pub is_unreserved : ℕ → Bool
is_unreserved c =
    is_alphanumeric c
    || c == b'-'
    || c == b'_'
    || c == b'.'
    || c == b'!'
    || c == b'~'
    || c == b'*'
    || c == 39
    || c == b'('
    || c == b')'

abbrev pub encode_byte : (ℕ → Bool) → ℕ → Text
encode_byte kept b = if kept b then b ∷ [] else percent b

unfoldable pub percent_encode : (ℕ → Bool) → Bytes → Text
unfolding percent
percent_encode kept [] = []
percent_encode kept (b ∷ bs) = encode_byte kept b ++ percent_encode kept bs

unfoldable pub has_lone_surrogate : Text → Bool
has_lone_surrogate [] = false
has_lone_surrogate (u ∷ []) = is_high_surrogate u || is_low_surrogate u
has_lone_surrogate (u ∷ v ∷ t) =
    let pair = has_lone_surrogate t in
    let single = is_high_surrogate u || is_low_surrogate u || has_lone_surrogate (v ∷ t) in
    if is_high_surrogate u && is_low_surrogate v then pair else single

unfoldable pub encode_uri_component : Text → Result Text
unfolding has_lone_surrogate percent_encode
encode_uri_component t =
    if has_lone_surrogate t
    then err (thrown (codes "URI malformed"))
    else ok (percent_encode is_unreserved (Utf8.encode t))

-- Letters, digits and * - . _ stand for themselves in a form.
abbrev pub is_form_plain : ℕ → Bool
is_form_plain c = is_alphanumeric c || c == b'*' || c == b'-' || c == b'.' || c == b'_'

unfoldable pub form_encode : Bytes → Text
unfolding percent
form_encode [] = []
form_encode (b ∷ bs) =
    (if b == b' ' then b'+' ∷ [] else encode_byte is_form_plain b) ++ form_encode bs

abbrev pub Pair : Type 0
Pair = Text × Text

unfoldable pub serialize_pair : Pair → Text
unfolding form_encode
serialize_pair (name, value) =
    form_encode (Utf8.encode name) ++ b'=' ∷ form_encode (Utf8.encode value)

-- `URLSearchParams.toString`
unfoldable pub serialize : List Pair → Text
unfolding serialize_pair
serialize [] = []
serialize (p ∷ []) = serialize_pair p
serialize (p ∷ q ∷ ps) = serialize_pair p ++ b'&' ∷ serialize (q ∷ ps)

add_head : ℕ → List Bytes → List Bytes
add_head c [] = (c ∷ []) ∷ []
add_head c (p ∷ ps) = (c ∷ p) ∷ ps

unfoldable pub split : ℕ → Bytes → List Bytes
unfolding add_head
split sep [] = [] ∷ []
split sep (c ∷ s) = let rest = split sep s in if c == sep then [] ∷ rest else add_head c rest

unfoldable pub cut : Bytes → Bytes × Bytes
cut [] = ([], [])
cut (c ∷ s) = let rest = cut s in if c == b'=' then ([], s) else (c ∷ rest.0, rest.1)

unfoldable pub hex_value : ℕ → Option ℕ
hex_value c =
    if leb b'0' c && leb c b'9'
    then some (c - b'0')
    else if leb b'A' c && leb c b'F'
    then some (c - b'A' + 10)
    else if leb b'a' c && leb c b'f'
    then some (c - b'a' + 10)
    else none

hex_pair : Option ℕ → Option ℕ → Option ℕ
hex_pair (some h) (some l) = some (h * 16 + l)
hex_pair (some h) none = none
hex_pair none l = none

-- The byte that `%cd` stands for, if `b` is a percent sign and two hexadecimal digits follow.
unfoldable pub escaped : ℕ → ℕ → ℕ → Option ℕ
unfolding hex_value hex_pair
escaped b c d = if b == b'%' then hex_pair (hex_value c) (hex_value d) else none

unfoldable pub percent_decode : Bytes → Bytes
unfolding escaped
percent_decode [] = []
percent_decode (b ∷ []) = b ∷ []
percent_decode (b ∷ c ∷ []) = b ∷ c ∷ []
percent_decode (b ∷ c ∷ d ∷ s) =
    let same = percent_decode (c ∷ d ∷ s) in
    let after = percent_decode s in elim (escaped b c d) [ none ↦ b ∷ same | some v ↦ v ∷ after ]

abbrev pub plus_to_space : ℕ → ℕ
plus_to_space b = if b == b'+' then b' ' else b

unfoldable pub form_decode : Bytes → Text
unfolding percent_decode
form_decode bs = Utf8.text_of (Utf8.decode_scalars (percent_decode (map plus_to_space bs)))

unfoldable pub parse_pieces : List Bytes → List Pair
unfolding cut form_decode
parse_pieces [] = []
parse_pieces ([] ∷ ps) = parse_pieces ps
parse_pieces ((c ∷ p) ∷ ps) =
    (form_decode (cut (c ∷ p)).0, form_decode (cut (c ∷ p)).1) ∷ parse_pieces ps

abbrev pub drop_question_mark : Text → Text
drop_question_mark [] = []
drop_question_mark (c ∷ t) = if c == b'?' then t else c ∷ t

-- `new URLSearchParams(text)`
unfoldable pub parse : Text → List Pair
unfolding split parse_pieces
parse t = parse_pieces (split b'&' (Utf8.encode (drop_question_mark t)))

-- `URLSearchParams.get`, with `none` for `null`
unfoldable pub get : Text → List Pair → Option Text
unfolding text_eq
get name [] = none
get name ((k, v) ∷ ps) = if text_eq k name then some v else get name ps
