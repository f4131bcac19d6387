-- ===== src/Link.antt =====
-- static/link.js: the format of the share link. `window.location.origin` is the argument `origin`, and
-- the browser's `new URL` the argument `parse_url`.
pub mod Fragment
pub mod RoundTrip
pub mod Length
pub mod Malformed
use key_bank.Base.{
  ℕ, suc, ◌+◌, ◌*◌, ◌/◌, Bool, true, false, ◌||◌, List, [], ◌∷◌, ◌++◌, Option, none, some, Text,
  codes, Result, ok, err, thrown, ◌>>=◌, length, ◌==◌, if◌then◌else◌,
}
use key_bank.Js.Url
use key_bank.Js.Url.{encode_uri_component, serialize, text_eq}
use key_bank.Crypto.Codec.{base64_url_pattern}
use key_bank.Crypto.Message.{Encrypted}

abbrev pub qr_capacity : ℕ
qr_capacity = 2331

abbrev pub id_length : ℕ
id_length = 32

abbrev pub wrapped_key_length : ℕ
wrapped_key_length = 683

abbrev pub iv_length : ℕ
iv_length = 16

abbrev pub gcm_tag_bytes : ℕ
gcm_tag_bytes = 16

-- `Math.ceil(bytes * 4 / 3)`
unfoldable pub base64_url_length : ℕ → ℕ
base64_url_length bytes = (bytes * 4 + 2) / 3

-- The form that stands behind the `#`.
unfoldable pub fragment_of : Encrypted → Text
fragment_of encrypted = serialize (
    (codes "v", codes "1")
    ∷ (codes "w", encrypted.wrapped)
    ∷ (codes "i", encrypted.iv)
    ∷ (codes "c", encrypted.ct)
    ∷ [])

unfoldable pub build_share_url : Text → Text → Encrypted → Result Text
build_share_url origin id encrypted = do
  id_text ← encode_uri_component id
  ok ((origin ++ codes "/share/") ++ (id_text ++ (b'#' ∷ fragment_of encrypted)))

unfoldable pub estimate_link_length : Text → ℕ → ℕ
unfolding base64_url_length
estimate_link_length origin plaintext_bytes =
    length (origin ++ codes "/share/")
    + id_length
    + length (codes "#v=1&w=")
    + wrapped_key_length
    + length (codes "&i=")
    + iv_length
    + length (codes "&c=")
    + base64_url_length (plaintext_bytes + gcm_tag_bytes)

pub record ParsedUrl : Type 0 where
  pub origin : Text
  pub pathname : Text
  pub hash : Text

pub record Parts : Type 0 where
  pub sent : Text
  pub kept : Text

unfoldable pub split_share_url : (Text → Result ParsedUrl) → Text → Result Parts
split_share_url parse_url href = do
  url ← parse_url href
  ok (record { sent = url.origin ++ url.pathname; kept = url.hash })

abbrev pub missing_fragment : Text
missing_fragment =
    codes "This share link is missing its encrypted fragment. Ask the sender for the complete link."

abbrev pub unsupported_version : Text
unsupported_version = codes "This share link uses an unsupported fragment version."

abbrev pub missing_data : Text
missing_data =
    codes "This share link is missing encrypted data. Ask the sender for the complete link."

unfoldable pub malformed : Text → Text
malformed name = codes "The " ++ (name ++ codes " in this share link is malformed.")

-- `hash.startsWith("#") ? hash.slice(1) : hash`
abbrev pub raw_fragment : Text → Text
raw_fragment [] = []
raw_fragment (c ∷ t) = if c == b'#' then t else c ∷ t

-- `!value` for a parameter: `null` and the empty text are both falsy.
abbrev pub present : Option Text → Option Text
present none = none
present (some []) = none
present (some (c ∷ t)) = some (c ∷ t)

abbrev pub is_version_one : Option Text → Bool
is_version_one none = false
is_version_one (some v) = text_eq v (codes "1")

-- The loop over the three named values.
unfoldable pub check_values : List (Text × Text) → Encrypted → Result Encrypted
unfolding malformed
check_values [] encrypted = ok encrypted
check_values ((name, value) ∷ values) encrypted =
    if base64_url_pattern value
    then check_values values encrypted
    else err (thrown (malformed name))

unfoldable pub read_values : Option Text → Option Text → Option Text → Result Encrypted
unfolding check_values
read_values (some wrapped) (some iv) (some ct) =
    check_values ((codes "wrapped key", wrapped) ∷ (codes "IV", iv) ∷ (codes "ciphertext", ct) ∷ [])
      (record { wrapped = wrapped; iv = iv; ct = ct })
read_values (some wrapped) (some iv) none = err (thrown missing_data)
read_values (some wrapped) none ct = err (thrown missing_data)
read_values none iv ct = err (thrown missing_data)

unfoldable pub read_params : List Url.Pair → Result Encrypted
read_params params =
    if is_version_one (Url.get (codes "v") params)
    then read_values (present (Url.get (codes "w") params)) (present (Url.get (codes "i") params))
        (present (Url.get (codes "c") params))
    else err (thrown unsupported_version)

unfoldable pub parse_raw : Text → Result Encrypted
parse_raw [] = err (thrown missing_fragment)
parse_raw (c ∷ t) = read_params (Url.parse (c ∷ t))

unfoldable pub parse_fragment : Text → Result Encrypted
parse_fragment hash = parse_raw (raw_fragment hash)
