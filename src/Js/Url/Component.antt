-- ===== src/Js/Url/Component.antt =====
-- `encodeURIComponent` keeps a text of unreserved characters, such as a hexadecimal ID.
use key_bank.Base.{ℕ, ◌≡◌, refl, ap, [], ◌∷◌, true, false, Text, ok, ◌<◌, All, arith}
use key_bank.Js.Utf8.Ascii.{IsAscii, encode_ascii}
use key_bank.Js.Url.{is_unreserved, percent_encode, has_lone_surrogate, encode_uri_component}

abbrev pub IsUnreserved : ℕ → Type 0
IsUnreserved c = is_unreserved c ≡ true

unreserved_ascii : (c : ℕ) → IsUnreserved c → c < 0x80
unreserved_ascii c h = ground arith

Unreserved-IsAscii : (t : Text) → All IsUnreserved t → All IsAscii t
Unreserved-IsAscii [] h = tt
Unreserved-IsAscii (c ∷ t) (hc, h) = (unreserved_ascii c hc, Unreserved-IsAscii t h)

percent_encode_plain : (t : Text) → All IsUnreserved t → percent_encode is_unreserved t ≡ t
unfolding percent_encode
percent_encode_plain [] h = refl
percent_encode_plain (c ∷ t) (hc, h) = rw (hc, percent_encode_plain t h) refl

no_surrogates : (t : Text) → All IsAscii t → has_lone_surrogate t ≡ false
unfolding has_lone_surrogate
no_surrogates [] h = refl
no_surrogates (c ∷ []) h = ground arith
no_surrogates (c ∷ d ∷ t) (hc, h) = ground (arith, no_surrogates (d ∷ t) h)

pub encode_uri_component_plain : (t : Text) → All IsUnreserved t → encode_uri_component t ≡ ok t
unfolding encode_uri_component
encode_uri_component_plain t h =
    let a = Unreserved-IsAscii t h in
    rw (no_surrogates t a, encode_ascii t a) (ap ok (percent_encode_plain t h))
