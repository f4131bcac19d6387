-- ===== src/Create/Page.antt =====
-- static/create.js, `initCreatePage`: the page as a state machine. An `await` splits the submit handler:
-- `Wait` says what it waits for.
mod State
pub mod Requests
pub mod Preserved
pub mod Delivery
pub use State.*
use key_bank.Base.{
  ℕ, ◌/◌, Bool, true, false, not, ◌&&◌, ◌||◌, List, [], ◌∷◌, ◌++◌, Option, none, some, Text, codes,
  Error, thrown, rejected, unfinished, Result, ok, err, ◌>>=◌, length, leb, ltb, all, if◌then◌else◌,
}
use key_bank.Js.Utf8
use key_bank.Crypto.Web.{WebCrypto}
use key_bank.Crypto.Pem.{is_space}
use key_bank.Crypto.Message.{encrypt_message}
use key_bank.Link.{ParsedUrl, qr_capacity, estimate_link_length, build_share_url}
use key_bank.Ui.{
  Status, set_status, idle, working, success, error, plural, format_duration, Anatomy,
  render_anatomy,
}
use key_bank.Api.{Net, Settle, Response, Key, start_create_key, finish_create_key}
use key_bank.Create.Expiry.{
  Form, Minutes, is_custom_selected, selected_ttl, configure_expiry_options, page_max_ttl,
  pick_preset,
}

module _ (env : Env) where
  open env use {
    crypto, parse_url, json, to_locale_string, origin, rejection_text, qr_library, has_dialog,
    can_share, default_form, configured_max_ttl,
  }

  abbrev pub max_ttl : ℕ
  max_ttl = page_max_ttl configured_max_ttl

  abbrev pub fits_text : ℕ → Text
  fits_text link_length =
      if leb link_length qr_capacity
      then codes "fits in a QR code"
      else codes "too long for a QR code"

  unfoldable pub describe_message : Text → Text
  describe_message [] = codes "Short notes make short links."
  describe_message (c ∷ t) =
      let bytes = byte_length (c ∷ t) in
      let link_length = estimate_link_length origin bytes in
      plural to_locale_string bytes (codes "byte")
      ++ (codes " · link ≈ "
          ++ (plural to_locale_string link_length (codes "character")
              ++ (codes " · " ++ fits_text link_length)))

  abbrev pub error_text : Error → Text
  error_text (thrown message) = message
  error_text rejected = rejection_text
  error_text unfinished = rejection_text

  abbrev pub say : Text → Page → Page
  say text p = record p { status = set_status text error }

  abbrev pub sync_custom_input : Page → Page
  sync_custom_input p = record p { custom_disabled = not (is_custom_selected p.form.presets) }

  -- The form is configured, if that throws nothing.
  abbrev pub configured_page : Page → Result Form → Result Page
  configured_page p (err e) = err e
  configured_page p (ok form) = ok (sync_custom_input (record p { form = form }))

  -- The elements as the template has them.
  abbrev pub template_page : Net → Text → Status → Page
  template_page net meta line = record {
    form = default_form;
    custom_disabled = true;
    message = [];
    message_meta = meta;
    submit_disabled = false;
    status = line;
    result_hidden = true;
    result_expiry = [];
    share_url = [];
    anatomy = none;
    qr_code = empty;
    size_warning = [];
    native_share_hidden = not can_share;
    shared = [];
    wait = nothing;
    net = net;
  }

  unfoldable pub init_create_page : Net → Text → Status → Result Page
  init_create_page net meta line =
      configured_page (template_page net meta line) (configure_expiry_options default_form max_ttl)

  -- `form.reset()` comes first; an exception of `configureExpiryOptions` ends the handler there.
  abbrev pub emptied : Page → Result Page → Page
  emptied p (err e) = record p { form = default_form; message = [] }
  emptied p (ok q) = record q {
    message = [];
    message_meta = describe_message [];
    result_hidden = true;
    share_url = [];
    qr_code = empty;
    status = set_status (codes "Ready for a new note.") idle;
  }

  unfoldable pub on_new_note : Page → Page
  on_new_note p = emptied p (configured_page p (configure_expiry_options default_form max_ttl))

  abbrev pub working_text : Text
  working_text = codes "Requesting a one-time keypair and encrypting locally…"

  abbrev pub requested : Page → ℕ → Text → Net × Settle → Page
  requested p ttl plaintext (net, handle) = record p {
    result_hidden = true;
    submit_disabled = true;
    status = set_status working_text working;
    net = net;
    wait = for_key handle ttl plaintext;
  }

  unfoldable pub request_key : Page → ℕ → Text → Page
  request_key p ttl plaintext = requested p ttl plaintext (start_create_key p.net ttl)

  -- The text that `confirmLargeMessage` puts into its dialog, if there is one.
  abbrev pub warning_text : ℕ → Text
  warning_text bytes =
      codes "This note is "
      ++ (plural to_locale_string bytes (codes "byte") ++ codes " once encoded as UTF-8.")

  abbrev pub shown_warning : ℕ → Text → Text
  shown_warning bytes before = if has_dialog then warning_text bytes else before

  abbrev pub warned : Page → ℕ → Text → Page
  warned p ttl plaintext = record p {
    size_warning = shown_warning (byte_length plaintext) p.size_warning;
    wait = for_confirmation ttl plaintext;
  }

  unfoldable pub submit_with : Page → Text → Result ℕ → Page
  submit_with p plaintext (err e) = say (error_text e) p
  submit_with p plaintext (ok ttl) =
      if ltb soft_plaintext_limit_bytes (byte_length plaintext)
      then warned p ttl plaintext
      else request_key p ttl plaintext

  -- The form is not submitted while its button is disabled, or the warning is open.
  unfoldable pub on_submit : Page → Wait → Page
  on_submit p nothing =
      if p.submit_disabled
      then p
      else if all is_space p.message
      then say (codes "Enter a message before generating a link.") p
      else submit_with p p.message (selected_ttl to_locale_string p.form max_ttl)
  on_submit p _ = p

  unfoldable pub on_confirmed : Page → Wait → Bool → Page
  on_confirmed p (for_confirmation ttl plaintext) true =
      request_key (record p { wait = nothing }) ttl plaintext
  on_confirmed p (for_confirmation ttl plaintext) false = record p {
    status = set_status (codes "Link generation cancelled.") idle;
    wait = nothing;
  }
  on_confirmed p _ answer = p

  -- `catch` and `finally`
  abbrev pub failed : Page → Error → Page
  failed p e = record (say (error_text e) p) { submit_disabled = false; wait = nothing }

  unfoldable pub key_created : Page → ℕ → Text → Result Key → Page
  key_created p ttl plaintext (err e) = failed p e
  key_created p ttl plaintext (ok key) = record p { wait = for_link key ttl plaintext }

  unfoldable pub on_reply : Page → Wait → Option Response → Page
  on_reply p (for_key handle ttl plaintext) response =
      let (net, key) = finish_create_key json p.net handle response in
      key_created (record p { net = net }) ttl plaintext key
  on_reply p _ response = p

  abbrev pub expiry_text : ℕ → Text
  expiry_text ttl =
      codes "It opens once, and expires in "
      ++ (format_duration to_locale_string ttl ++ codes " if nobody opens it.")

  abbrev pub done_text : Bool → Text
  done_text true =
      codes "Link generated. Your message never left this browser; it is encrypted inside the link."
  done_text false =
      codes "Link generated. This link is too long for a QR code, so copy the share URL instead."

  abbrev pub show_result : Page → Text → Result Anatomy → Page
  show_result p url (err e) = failed p e
  show_result p url (ok anatomy) = record p {
    anatomy = some anatomy;
    result_hidden = false;
    qr_code = render_qr_code qr_library url;
    status = set_status (done_text (is_drawn (render_qr_code qr_library url))) success;
    submit_disabled = false;
    wait = nothing;
  }

  unfoldable pub link_made : Page → ℕ → Result Text → Page
  link_made p ttl (err e) = failed p e
  link_made p ttl (ok url) =
      show_result (record p { share_url = url; result_expiry = expiry_text ttl }) url
        (render_anatomy parse_url to_locale_string url)

  unfoldable pub on_encrypted : Page → Wait → crypto.Random → Page
  on_encrypted p (for_link key ttl plaintext) random =
      link_made p ttl
        (encrypt_message crypto random key.pub_pem plaintext >>= build_share_url origin key.id)
  on_encrypted p _ random = p

  abbrev pub on_copied : Page → Result Bool → Page
  on_copied p (err e) = say (codes "Copy failed. Select the share URL and copy it manually.") p
  on_copied p (ok true) = record p {
    status = set_status (codes "Share URL copied to your clipboard.") success;
  }
  on_copied p (ok false) = record p {
    status = set_status (codes "Copy the share URL manually from the box above.") success;
  }

  -- The button is there if the browser can share.
  abbrev pub on_native_share : Page → Page
  on_native_share p =
      if p.native_share_hidden then p else record p { shared = p.shared ++ p.share_url ∷ [] }

  unfoldable pub step : Page → Event crypto.Random → Page
  step p (pick i) =
      sync_custom_input
        (record p { form = record p.form { presets = pick_preset i p.form.presets } })
  step p (type_minutes minutes) = record p { form = record p.form { minutes = minutes } }
  step p (type_message text) = record p { message = text; message_meta = describe_message text }
  step p submit = on_submit p p.wait
  step p (confirmed answer) = on_confirmed p p.wait (is_confirmed answer)
  step p (reply response) = on_reply p p.wait response
  step p (encrypted random) = on_encrypted p p.wait random
  step p (copied worked) = on_copied p worked
  step p native_share = on_native_share p
  step p new_note = on_new_note p

  unfoldable pub run : Page → List (Event crypto.Random) → Page
  run p [] = p
  run p (e ∷ es) = run (step p e) es
