-- ===== src/Link/RoundTrip.antt =====
-- From the link to the note's parts: what is built is read, and what is read is well formed.
use key_bank.Base.{
  ℕ, ◌≡◌, ◌≢◌, refl, ap, ◌∙◌, sym, ◌↔◌, true, List, [], ◌∷◌, ◌++◌, append_assoc, Option, none, some,
  Text, codes, ok, err, thrown, ◌>>=◌, All, arith, ◌==◌, ne→==, if◌then◌else◌, Bool-cases, inl, inr,
}
use key_bank.Js.Utf8.{encode}
use key_bank.Js.Url
use key_bank.Js.Url.Component.{IsUnreserved, encode_uri_component_plain}
use key_bank.Js.Url.Equality.{text_eq_iff}
use key_bank.Crypto.Message.{Encrypted}
use key_bank.Link.{
  build_share_url, fragment_of, read_params, read_values, present, is_version_one, parse_raw,
  raw_fragment, parse_fragment, unsupported_version,
}
use key_bank.Link.Fragment.{
  IsWellFormed, parse_fragment-fragment_of, present-some, pattern_ne_nil, check_values_ok,
}

-- `URL.hash` of a link without other uses of `#`: the text from the first `#` on.
unfoldable pub hash_of : Text → Text
hash_of [] = []
hash_of (c ∷ t) = if c == b'#' then c ∷ t else hash_of t

abbrev pub IsNoHash : ℕ → Type 0
IsNoHash c = c ≢ b'#'

hash_of_skip : (s t : Text) → All IsNoHash s → hash_of (s ++ t) ≡ hash_of t
unfolding hash_of
hash_of_skip [] t h = refl
hash_of_skip (c ∷ s) t (hc, h) = rw (ne→== c b'#' hc) (hash_of_skip s t h)

IsUnreserved-IsNoHash : (t : Text) → All IsUnreserved t → All IsNoHash t
IsUnreserved-IsNoHash [] h = tt
IsUnreserved-IsNoHash (c ∷ t) (hc, h) = (ground arith, IsUnreserved-IsNoHash t h)

-- The link that is built: origin, path, ID and the fragment.
pub build_share_url_lem :
    (origin id : Text) (e : Encrypted)
    → All IsUnreserved id
    → build_share_url origin id e
      ≡ ok ((origin ++ codes "/share/") ++ (id ++ (b'#' ∷ fragment_of e)))
unfolding build_share_url
build_share_url_lem origin id e h = rw (encode_uri_component_plain id h) refl

hash_of_url :
    (origin id fragment : Text)
    → All IsNoHash origin
    → All IsUnreserved id
    → hash_of ((origin ++ codes "/share/") ++ (id ++ (b'#' ∷ fragment))) ≡ b'#' ∷ fragment
hash_of_url origin id fragment ho hi = rw append_assoc (
    hash_of_skip origin _ ho ∙ path_kept _ ∙ hash_of_skip id _ (IsUnreserved-IsNoHash id hi) ∙ here)
  where
    path_kept : (t : Text) → hash_of (codes "/share/" ++ t) ≡ hash_of t
    path_kept t = unfold hash_of codes in refl

    here : hash_of (b'#' ∷ fragment) ≡ b'#' ∷ fragment
    here = unfold hash_of in refl

-- Opening the link that was built for an encrypted note yields that note, if the origin holds no `#`,
-- the ID only unreserved characters, and the note's values are base64url texts.
pub parse_fragment-build_share_url :
    (origin id : Text) (e : Encrypted)
    → All IsNoHash origin
    → All IsUnreserved id
    → IsWellFormed e
    → (build_share_url origin id e >>= λ url. parse_fragment (hash_of url)) ≡ ok e
parse_fragment-build_share_url origin id e ho hi h =
    rw (build_share_url_lem origin id e hi, hash_of_url origin id (fragment_of e) ho hi)
      (parse_fragment-fragment_of e h)

-- What a fragment that is read must hold.
pub record Accepts (params : List Url.Pair) (e : Encrypted) : Type 0 where
  pub version : Url.get (codes "v") params ≡ some (codes "1")
  pub wrapped_given : Url.get (codes "w") params ≡ some e.wrapped
  pub iv_given : Url.get (codes "i") params ≡ some e.iv
  pub ct_given : Url.get (codes "c") params ≡ some e.ct
  pub well_formed : IsWellFormed e

read_values-IsWellFormed :
    (a b c : Option Text) (e : Encrypted)
    → read_values a b c ≡ ok e
    → (a ≡ some e.wrapped) × (b ≡ some e.iv) × (c ≡ some e.ct) × IsWellFormed e
unfolding read_values
read_values-IsWellFormed (some a) (some b) (some c) e h = ground arith
read_values-IsWellFormed (some a) (some b) none e h = cc
read_values-IsWellFormed (some a) none c e h = cc
read_values-IsWellFormed none b c e h = cc

present-eq-some : (o : Option Text) (t : Text) → present o ≡ some t → o ≡ some t
present-eq-some none t h = cc
present-eq-some (some []) t h = cc
present-eq-some (some (c ∷ s)) t h = h

is_version_one_iff : (o : Option Text) → (is_version_one o ≡ true) ↔ (o ≡ some (codes "1"))
is_version_one_iff none = (λ h. cc, λ h. cc)
is_version_one_iff (some v) =
    (λ h. ap some ((text_eq_iff v (codes "1")).0 h), λ h. (text_eq_iff v (codes "1")).1 (cc))

read_params-Accepts : (ps : List Url.Pair) (e : Encrypted) → read_params ps ≡ ok e → Accepts ps e
unfolding read_params
read_params-Accepts ps e h = elim (Bool-cases (is_version_one (Url.get (codes "v") ps))) [
  | inl one ↦
      let h' : read_values (present (Url.get (codes "w") ps)) (present (Url.get (codes "i") ps))
            (present (Url.get (codes "c") ps))
          ≡ ok e =
        rw one at h in
      let (w, i, c, good) = read_values-IsWellFormed _ _ _ e h' in
      record {
        version = (is_version_one_iff _).0 one;
        wrapped_given = present-eq-some _ _ w;
        iv_given = present-eq-some _ _ i;
        ct_given = present-eq-some _ _ c;
        well_formed = good;
      }
  | inr other ↦ let bad : err (thrown unsupported_version) ≡ ok e = rw other at h in cc
]

Accepts-read_params : (ps : List Url.Pair) (e : Encrypted) → Accepts ps e → read_params ps ≡ ok e
unfolding read_params
Accepts-read_params ps e a =
    rw
      (
        (is_version_one_iff _).1 a.version,
        a.wrapped_given,
        a.iv_given,
        a.ct_given,
        present-some e.wrapped (pattern_ne_nil e.wrapped a.well_formed.wrapped_ok),
        present-some e.iv (pattern_ne_nil e.iv a.well_formed.iv_ok),
        present-some e.ct (pattern_ne_nil e.ct a.well_formed.ct_ok),
      )
      (check_values_ok e a.well_formed)

not_ok : {m : Text} {e : Encrypted} → err (thrown m) ≡ ok e → ⊥
not_ok h = cc

params_nil : read_params (Url.parse []) ≡ err (thrown unsupported_version)
unfolding read_params Url.parse Url.get encode
params_nil = refl

parse_raw-params :
    (t : Text) (e : Encrypted) → (parse_raw t ≡ ok e) ↔ (read_params (Url.parse t) ≡ ok e)
unfolding parse_raw
parse_raw-params [] e = (λ h. absurd (not_ok h), λ h. absurd (not_ok (sym params_nil ∙ h)))
parse_raw-params (c ∷ t) e = (λ h. h, λ h. h)

-- A fragment is accepted exactly when its parameters hold version 1 and three well-formed values,
-- and these are what is returned.
pub parse_fragment_iff :
    (hash : Text) (e : Encrypted)
    → (parse_fragment hash ≡ ok e) ↔ Accepts (Url.parse (raw_fragment hash)) e
unfolding parse_fragment
parse_fragment_iff hash e =
    let (to, from) = parse_raw-params (raw_fragment hash) e in
    (λ h. read_params-Accepts _ e (to h), λ a. from (Accepts-read_params _ e a))
