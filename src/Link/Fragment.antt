-- ===== src/Link/Fragment.antt =====
-- The text of a link's fragment, and what reading it yields.
use mathlib.Core.List.{cons-ne-nil}
use mathlib.Core.Bool.{and-eq-true_iff}
use key_bank.Base.{
  ℕ, ◌≡◌, ◌≢◌, refl, ap, ◌∙◌, true, List, [], ◌∷◌, some, Text, codes, ok, All, arith, all,
}
use key_bank.Js.Url
use key_bank.Js.Url.{serialize, is_form_plain}
use key_bank.Js.Url.Plain.{IsPlain, IsPlainPair, parse-serialize, serialize_plain, joined}
use key_bank.Crypto.Codec.{is_base64_url, base64_url_pattern}
use key_bank.Crypto.Message.{Encrypted}
use key_bank.Link.{fragment_of, read_params, read_values, present, parse_raw, parse_fragment}

-- The three values are base64url texts, as `parseFragment` demands.
pub record IsWellFormed (e : Encrypted) : Type 0 where
  pub wrapped_ok : base64_url_pattern e.wrapped ≡ true
  pub iv_ok : base64_url_pattern e.iv ≡ true
  pub ct_ok : base64_url_pattern e.ct ≡ true

base64_url-IsPlain : (c : ℕ) → is_base64_url c ≡ true → IsPlain c
base64_url-IsPlain c h = ground arith

all-IsPlain : (t : Text) → all is_base64_url t ≡ true → All IsPlain t
all-IsPlain [] h = tt
all-IsPlain (c ∷ t) h =
    let (hc, ht) = (and-eq-true_iff _ _).0 h in (base64_url-IsPlain c hc, all-IsPlain t ht)

pub pattern_ne_nil : (t : Text) → base64_url_pattern t ≡ true → t ≢ []
unfolding base64_url_pattern
pattern_ne_nil [] h = cc
pattern_ne_nil (c ∷ t) h = cons-ne-nil c t

pub pattern-IsPlain : (t : Text) → base64_url_pattern t ≡ true → All IsPlain t
unfolding base64_url_pattern
pattern-IsPlain [] h = tt
pattern-IsPlain (c ∷ t) h = all-IsPlain (c ∷ t) h

abbrev pub pairs_of : Encrypted → List Url.Pair
pairs_of e =
    (codes "v", codes "1") ∷ (codes "w", e.wrapped) ∷ (codes "i", e.iv) ∷ (codes "c", e.ct) ∷ []

pub pairs-IsPlainPair : (e : Encrypted) → IsWellFormed e → All IsPlainPair (pairs_of e)
unfolding codes
pairs-IsPlainPair e h = (
  (cons-ne-nil _ _, (refl, tt), (refl, tt)),
  (
    (cons-ne-nil _ _, (refl, tt), pattern-IsPlain e.wrapped h.wrapped_ok),
    (
      (cons-ne-nil _ _, (refl, tt), pattern-IsPlain e.iv h.iv_ok),
      ((cons-ne-nil _ _, (refl, tt), pattern-IsPlain e.ct h.ct_ok), tt),
    ),
  ),
)

pub fragment_of_lem : (e : Encrypted) → IsWellFormed e → fragment_of e ≡ joined (pairs_of e)
unfolding fragment_of
fragment_of_lem e h = serialize_plain (pairs_of e) (pairs-IsPlainPair e h)

parse-fragment_of : (e : Encrypted) → IsWellFormed e → Url.parse (fragment_of e) ≡ pairs_of e
unfolding fragment_of
parse-fragment_of e h = parse-serialize (pairs_of e) (pairs-IsPlainPair e h)

pub present-some : (t : Text) → t ≢ [] → present (some t) ≡ some t
present-some [] h = absurd (h refl)
present-some (c ∷ t) h = refl

pub check_values_ok :
    (e : Encrypted) → IsWellFormed e → read_values (some e.wrapped) (some e.iv) (some e.ct) ≡ ok e
unfolding read_values
check_values_ok e h = rw (h.wrapped_ok, h.iv_ok, h.ct_ok) refl

read_params_ok : (e : Encrypted) → IsWellFormed e → read_params (pairs_of e) ≡ ok e
read_params_ok e h =
    unfold read_params Url.get codes in
    rw
      (
        present-some e.wrapped (pattern_ne_nil e.wrapped h.wrapped_ok),
        present-some e.iv (pattern_ne_nil e.iv h.iv_ok),
        present-some e.ct (pattern_ne_nil e.ct h.ct_ok),
      )
      (check_values_ok e h)

pub parse_raw_lem : (t : Text) → t ≢ [] → parse_raw t ≡ read_params (Url.parse t)
unfolding parse_raw
parse_raw_lem [] h = absurd (h refl)
parse_raw_lem (c ∷ t) h = refl

joined-ne-nil : (e : Encrypted) → joined (pairs_of e) ≢ []
unfolding codes
joined-ne-nil e = cons-ne-nil _ _

-- Reading a fragment that was written for well-formed values gives the values back.
pub parse_fragment-fragment_of :
    (e : Encrypted) → IsWellFormed e → parse_fragment (b'#' ∷ fragment_of e) ≡ ok e
unfolding parse_fragment
parse_fragment-fragment_of e h =
    parse_raw_lem (fragment_of e) (rw (fragment_of_lem e h) (joined-ne-nil e))
    ∙ ap read_params (parse-fragment_of e h)
    ∙ read_params_ok e h
