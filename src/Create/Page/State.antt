-- ===== src/Create/Page/State.antt =====
-- static/create.js: the state of the create page, its events, and what it is given.
use key_bank.Base.{ℕ, Bool, true, false, List, Option, none, some, Text, codes, Result, length}
use key_bank.Js.Url.{text_eq}
use key_bank.Js.Utf8
use key_bank.Crypto.Web.{WebCrypto}
use key_bank.Link.{ParsedUrl}
use key_bank.Ui.{Status, Anatomy}
use key_bank.Api.{Net, Settle, Response, Key}
use key_bank.Create.Expiry.{Form, Minutes}

abbrev pub soft_plaintext_limit_bytes : ℕ
soft_plaintext_limit_bytes = 102400

abbrev pub byte_length : Text → ℕ
byte_length value = length (Utf8.encode value)

-- What `renderQRCode` comes to: the library is missing, it draws, or it throws.
pub data QrCode : Type 0 where
  empty missing drawn too_long : QrCode

-- `renderQRCode`; the library, if there is one, draws a text or throws.
abbrev pub qr_drawn : Bool → QrCode
qr_drawn true = drawn
qr_drawn false = too_long

abbrev pub render_qr_code : Option (Text → Bool) → Text → QrCode
render_qr_code none value = missing
render_qr_code (some draws) value = qr_drawn (draws value)

-- What `confirmLargeMessage` is answered: by `window.confirm`, or by the value of the dialog that closes.
pub data Answer : Type 0 where
  window_confirm : Bool → Answer
  dialog_closed : Text → Answer

abbrev pub is_confirmed : Answer → Bool
is_confirmed (window_confirm answer) = answer
is_confirmed (dialog_closed value) = text_eq value (codes "confirm")

abbrev pub is_drawn : QrCode → Bool
is_drawn drawn = true
is_drawn _ = false

-- Nothing is awaited, or the answer to the warning for a large note, or that of `createKey`, or the
-- encryption, each with the lifetime and the text that the handler holds.
pub data Wait : Type 0 where
  nothing : Wait
  for_confirmation : ℕ → Text → Wait
  for_key : Settle → ℕ → Text → Wait
  for_link : Key → ℕ → Text → Wait

-- `size_warning` is the text of the dialog, and `shared` the links given to `navigator.share`.
pub record Page : Type 0 where
  pub form : Form
  pub custom_disabled : Bool
  pub message : Text
  pub message_meta : Text
  pub submit_disabled : Bool
  pub status : Status
  pub result_hidden : Bool
  pub result_expiry : Text
  pub share_url : Text
  pub anatomy : Option Anatomy
  pub qr_code : QrCode
  pub size_warning : Text
  pub native_share_hidden : Bool
  pub shared : List Text
  pub wait : Wait
  pub net : Net

-- The reader picks a preset, types minutes or the message, submits the form, answers the warning;
-- the reply comes, the encryption ends; the link has been copied, or is
-- handed to the system; a new note is begun.
pub data Event (Random : Type 0) : Type 0 where
  pick : ℕ → Event Random
  type_minutes : Minutes → Event Random
  type_message : Text → Event Random
  submit : Event Random
  confirmed : Answer → Event Random
  reply : Option Response → Event Random
  encrypted : Random → Event Random
  copied : Result Bool → Event Random
  native_share : Event Random
  new_note : Event Random

-- What the page is given: the browser's functions, the QR library, whether the warning is a dialog and
-- the browser has `navigator.share`, and the form of the template.
-- `rejection_text` is what an exception of the browser itself says.
pub record Env : Type 1 where
  pub crypto : WebCrypto
  pub parse_url : Text → Result ParsedUrl
  pub json : Text → Result Key
  pub to_locale_string : ℕ → Text
  pub origin : Text
  pub rejection_text : Text
  pub qr_library : Option (Text → Bool)
  pub has_dialog : Bool
  pub can_share : Bool
  pub default_form : Form
  pub configured_max_ttl : Option ℕ
