-- ===== src/Examples/Notes.antt =====
-- A note from its text to its link and back, with the browser of the examples.
use mathlib.Core.List.{cons-ne-nil}
use key_bank.Base.{
  some, ℕ, ◌≡◌, refl, List, [], ◌∷◌, Text, codes, ok, ◌>>=◌, length, All, arith, not, all, inl, inr,
  ◌==◌, true,
}
use key_bank.Js.Base64
use key_bank.Js.Utf8
use key_bank.Js.Utf8.{text_of, strip_mark}
use key_bank.Js.Utf8.RoundTrip.{IsScalar}
use key_bank.Js.Url.{is_unreserved}
use key_bank.Js.Url.Component.{IsUnreserved}
use key_bank.Crypto.Message.{
  import_rsa_public_key, import_rsa_private_key, encrypt_message, decrypt_message,
}
use key_bank.Crypto.Message.RoundTrip.{Encryption}
use key_bank.Crypto.Pem.{pem_to_bytes}
use key_bank.Crypto.Pem.RoundTrip.{block, pem_to_bytes-encode}
use key_bank.Link.{build_share_url, parse_fragment, estimate_link_length}
use key_bank.Link.RoundTrip.{hash_of, IsNoHash}
use key_bank.Note.{decrypt_message-build_share_url, length-share_link}
use key_bank.Base.{err, rejected, none, false}
use key_bank.Js.Number.{decimal}
use key_bank.Ui.{set_status, working}
use key_bank.Api.{Key, Net}
use key_bank.Create.Expiry.{below}
use key_bank.Create.Page.{Env, Page, nothing, for_link, encrypted, template_page, step}
use key_bank.Create.Page.Delivery.{step-delivers}
use key_bank.Examples.Browser.{pad, is_byte, bytes-IsByte, browser, IsPair, browser-IsLawful}
use key_bank.Examples.Checks.{All_of_test, without}

-- "Hé" and an emoji.
abbrev scalar_values : List ℕ
scalar_values = 72 ∷ 233 ∷ 0x1F600 ∷ []

-- A block that holds three zero bytes.
abbrev pem_of : Text → Text
pem_of label = block label [] (codes "AAAA") []

abbrev public_pem : Text
public_pem = pem_of (codes "PUBLIC KEY")

abbrev private_pem : Text
private_pem = pem_of (codes "PRIVATE KEY")

abbrev key_id : Text
key_id = codes "0123456789abcdef0123456789abcdef"

abbrev bank : Text
bank = codes "https://bank"

pem_read :
    (label : Text)
    → all (λ c. not (c == b'-')) label ≡ true
    → pem_to_bytes (pem_of label) label ≡ ok (0 ∷ 0 ∷ 0 ∷ [])
unfolding codes Base64.encode Base64.keep Base64.sextets Base64.digit
pem_read label h =
    pem_to_bytes-encode label [] (codes "AAAA") [] (0 ∷ 0 ∷ 0 ∷ []) (without b'-' label h) tt
      (without b'-' (codes "AAAA") refl) (bytes-IsByte (0 ∷ 0 ∷ 0 ∷ []) refl) (cons-ne-nil _ _) refl

imported : import_rsa_private_key browser private_pem ≡ ok tt
imported =
    unfold import_rsa_private_key in rw (pem_read (codes "PRIVATE KEY") (unfold codes in refl)) refl

encoded : all is_byte (Utf8.encode (text_of scalar_values)) ≡ true
unfolding Utf8.encode text_of
encoded = refl

calls : Encryption browser tt public_pem (text_of scalar_values)
calls = record {
  public_key = tt;
  aes_key = tt;
  ciphertext = pad 16 (Utf8.encode (text_of scalar_values));
  raw_key = pad 32 [];
  wrapped = pad 512 [];
  imports =
      unfold import_rsa_public_key in
      rw (pem_read (codes "PUBLIC KEY") (unfold codes in refl)) refl;
  generates = refl;
  encrypts = rw encoded refl;
  exports = refl;
  wraps = refl;
}

scalars : All IsScalar scalar_values
scalars = (
  (omega arith, inl (omega arith)),
  ((omega arith, inl (omega arith)), ((omega arith, inr (omega arith)), tt)),
)

unreserved : All IsUnreserved key_id
unfolding codes
unreserved = All_of_test IsUnreserved is_unreserved (λ c h. h) key_id refl

no_hash : All IsNoHash bank
unfolding codes
no_hash = without b'#' bank refl

decrypt_message-build_share_url_example :
    (url : Text) × ((encrypt_message browser tt public_pem (text_of scalar_values)
        >>= build_share_url bank key_id)
      ≡ ok url)
    × ((parse_fragment (hash_of url) >>= λ f.
          decrypt_message browser private_pem f.wrapped f.iv f.ct)
        ≡ ok (text_of (strip_mark scalar_values)))
decrypt_message-build_share_url_example =
    decrypt_message-build_share_url browser IsPair browser-IsLawful tt public_pem private_pem bank
      key_id scalar_values calls tt scalars no_hash unreserved imported tt

length-share_link_example :
    (url : Text) × ((encrypt_message browser tt public_pem (text_of scalar_values)
        >>= build_share_url bank key_id)
      ≡ ok url)
    × (length url ≡ estimate_link_length bank (length (Utf8.encode (text_of scalar_values))))
length-share_link_example =
    length-share_link browser IsPair browser-IsLawful tt public_pem (text_of scalar_values) calls
      bank key_id unreserved (unfold codes in refl)

abbrev env : Env
env = record {
  crypto = browser;
  parse_url = λ href. err rejected;
  json = λ text. err rejected;
  to_locale_string = decimal;
  origin = bank;
  rejection_text = codes "Invalid URL";
  qr_library = some (λ text. true);
  has_dialog = true;
  can_share = false;
  default_form = record { presets = []; minutes = below; max_minutes = 10080 };
  configured_max_ttl = none;
}

abbrev new_key : Key
new_key = record { id = key_id; pub_pem = public_pem }

abbrev quiet : Net
quiet = record { ledger = record { shown = false; entries = [] }; requests = [] }

abbrev waiting : Page
waiting = record (template_page env quiet [] (set_status [] working)) {
  submit_disabled = true;
  wait = for_link new_key 3600 (text_of scalar_values);
}

step-delivers_example :
    let q = step env waiting (encrypted tt) in
    ((parse_fragment (hash_of q.share_url) >>= λ f.
    decrypt_message browser private_pem f.wrapped f.iv f.ct)
      ≡ ok (text_of (strip_mark scalar_values)))
    × (q.submit_disabled ≡ false)
    × (q.wait ≡ nothing)
step-delivers_example =
    step-delivers env IsPair browser-IsLawful waiting new_key 3600 scalar_values private_pem tt
      calls tt refl scalars no_hash unreserved imported tt
