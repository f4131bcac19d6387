-- ===== src/Link/Length.antt =====
-- The length of a link is what the create page predicts.
use key_bank.Base.{
  ℕ, ◌+◌, ◌≡◌, refl, ap, ◌∙◌, ◌∷◌, ◌++◌, Text, Bytes, codes, ok, length, length-append, All, arith,
}
use key_bank.Js.Url.Component.{IsUnreserved}
use key_bank.Crypto.Codec.RoundTrip.{url_text, length-url_text}
use key_bank.Crypto.Message.{Encrypted}
use key_bank.Link.{build_share_url, fragment_of, estimate_link_length, id_length}
use key_bank.Link.Fragment.{IsWellFormed, fragment_of_lem}
use key_bank.Link.RoundTrip.{build_share_url_lem}

literals :
    (length (codes "/share/") ≡ 7)
    × (length (codes "#v=1&w=") ≡ 7)
    × (length (codes "&i=") ≡ 3)
    × (length (codes "&c=") ≡ 3)
literals = unfold codes in (refl, refl, refl, refl)

length-fragment_of :
    (e : Encrypted)
    → IsWellFormed e
    → length (fragment_of e) ≡ length e.wrapped + length e.iv + length e.ct + 12
length-fragment_of e h =
    ap length (fragment_of_lem e h)
    ∙ unfold codes in
      omega (
        arith,
        length-append {0} e.wrapped (b'&' ∷ b'i' ∷ b'=' ∷ (e.iv ++ b'&' ∷ b'c' ∷ b'=' ∷ e.ct)),
        length-append {0} e.iv (b'&' ∷ b'c' ∷ b'=' ∷ e.ct),
      )

length-url :
    (origin id fragment : Text)
    → length ((origin ++ codes "/share/") ++ (id ++ (b'#' ∷ fragment)))
      ≡ length (origin ++ codes "/share/") + length id + 1 + length fragment
length-url origin id fragment = omega (
  arith,
  length-append {0} (origin ++ codes "/share/") (id ++ (b'#' ∷ fragment)),
  length-append {0} id (b'#' ∷ fragment),
)

-- The parts have the lengths that the constants of link.js state.
pub length-build_share_url :
    (origin id : Text) (wrapped iv ct : Bytes) (n : ℕ) (e : Encrypted)
    → e ≡ record { wrapped = url_text wrapped; iv = url_text iv; ct = url_text ct }
    → IsWellFormed e
    → All IsUnreserved id
    → length id ≡ id_length
    → length wrapped ≡ 512
    → length iv ≡ 12
    → length ct ≡ n + 16
    → (url : Text) × (build_share_url origin id e ≡ ok url)
      × (length url ≡ estimate_link_length origin n)
length-build_share_url origin id wrapped iv ct n e same h hi hid hw hv hc = (
  (origin ++ codes "/share/") ++ (id ++ (b'#' ∷ fragment_of e)),
  build_share_url_lem origin id e hi,
  unfold estimate_link_length in
      omega (
        arith,
        length-url origin id (fragment_of e),
        length-fragment_of e h,
        ap (λ r. length r.wrapped) same,
        ap (λ r. length r.iv) same,
        ap (λ r. length r.ct) same,
        length-url_text wrapped,
        length-url_text iv,
        length-url_text ct,
        literals,
      ),
)
