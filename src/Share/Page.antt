-- ===== src/Share/Page.antt =====
-- static/share.js, `initSharePage`: the page as a state machine. An `await` splits the click handler:
-- `Wait` says what it waits for, and events come in any order between.
pub mod Invariant
pub mod Clicks
pub mod Preserved
pub mod Once
pub mod Opening
pub mod Safety
pub mod Stale
use key_bank.Base.{
  ℕ, Bool, true, false, List, [], ◌∷◌, ◌++◌, Option, none, some, Text, codes, Error, thrown,
  rejected, unfinished, Result, ok, err, ◌>>=◌, if◌then◌else◌,
}
use key_bank.Crypto.Web.{WebCrypto}
use key_bank.Crypto.Message.{Encrypted, decrypt_message}
use key_bank.Link.{ParsedUrl, parse_fragment}
use key_bank.Ui.{Status, set_status, idle, working, success, error, Anatomy, render_anatomy}
use key_bank.Api.{Net, Settle, Response, start_fetch_key, finish_fetch_key}
use key_bank.Share.Reveal
use key_bank.Share.Reveal.{Shown}

-- `card.dataset.state`
pub data CardState : Type 0 where
  ready busy open_note spent invalid : CardState

-- `window.location`, as far as the page reads it.
pub record Location : Type 0 where
  pub href : Text
  pub hash : Text

-- No await is pending, or the one of `fetchKey`, or that of `decryptMessage` with the private key.
pub data Wait : Type 0 where
  nothing : Wait
  for_key : Settle → Wait
  for_plaintext : Text → Encrypted → Wait

pub record Page : Type 0 where
  pub state : CardState
  pub disabled : Bool
  pub status : Status
  pub anatomy : Anatomy
  pub location : Location
  pub fragment : Option Encrypted
  pub wait : Wait
  pub net : Net
  pub shown : Option Shown

-- `error.message`; `rejection_text` is what an exception of the browser itself says.
abbrev pub message_of : Text → Error → Text
message_of rejection_text (thrown message) = message
message_of rejection_text rejected = rejection_text
message_of rejection_text unfinished = rejection_text

abbrev pub is_ready : CardState → Bool
is_ready ready = true
is_ready _ = false

-- `setState`: only the ready state leaves the button enabled.
abbrev pub set_state : CardState → Page → Page
set_state ready p = record p { state = ready; disabled = false }
set_state busy p = record p { state = busy; disabled = true }
set_state open_note p = record p { state = open_note; disabled = true }
set_state spent p = record p { state = spent; disabled = true }
set_state invalid p = record p { state = invalid; disabled = true }

abbrev pub fetching_text : Text
fetching_text = codes "Fetching the one-time private key…"

abbrev pub spent_text : Text
spent_text =
    codes
      "This note has already been opened or expired. If you did not open it yourself, someone else may have: ask the sender for a new link."

abbrev pub undecryptable_text : Text
undecryptable_text =
    codes "Unable to decrypt this link. The encrypted fragment may be corrupted or tampered with."

abbrev pub decrypted_text : Text
decrypted_text =
    codes "Plaintext decrypted locally. The private key has already been destroyed server-side."

-- What happens to the page: the address changes, the button is clicked, the reply of the request
-- for the key arrives (or none does), the decryption ends at some time, and the events of a note on
-- show.
pub data Event : Type 0 where
  hash_change : Location → Event
  click : Event
  reply : Option Response → Event
  decrypted : ℕ → Event
  shown_event : Reveal.Event → Event

-- What the page is given: the browser's functions, and what the server has written into the page.
pub record Env : Type 1 where
  pub crypto : WebCrypto
  pub parse_url : Text → Result ParsedUrl
  pub to_locale_string : ℕ → Text
  pub share_id : Text
  pub ready_message : Text
  pub rejection_text : Text
  pub auto_hide_seconds : ℕ

module _ (env : Env) where
  open env use {
    crypto, parse_url, to_locale_string, share_id, ready_message, rejection_text, auto_hide_seconds,
  }

  unfoldable pub show_parts : Page → Result Encrypted → Page
  show_parts p (ok f) =
      set_state ready (record p { fragment = some f; status = set_status ready_message idle })
  show_parts p (err e) =
      set_state invalid
        (record p { fragment = none; status = set_status (message_of rejection_text e) error })

  -- An exception of `renderAnatomy` ends the handler.
  unfoldable pub inspect_with : Page → Result Anatomy → Page
  unfolding show_parts
  inspect_with p (err e) = p
  inspect_with p (ok anatomy) =
      show_parts (record p { anatomy = anatomy }) (parse_fragment p.location.hash)

  unfoldable pub inspect_link : Page → Page
  unfolding inspect_with
  inspect_link p = inspect_with p (render_anatomy parse_url to_locale_string p.location.href)

  unfoldable pub init_with : Location → Net → Result Anatomy → Result Page
  init_with location net (err e) = err e
  init_with location net (ok anatomy) = ok (
      show_parts
        (record {
          state = ready;
          disabled = false;
          status = set_status ready_message idle;
          anatomy = anatomy;
          location = location;
          fragment = none;
          wait = nothing;
          net = net;
          shown = none;
        })
        (parse_fragment location.hash))

  -- The page when `initSharePage` has run, with the ready state that the template has.
  unfoldable pub init_share_page : Location → Net → Result Page
  unfolding init_with
  init_share_page location net =
      init_with location net (render_anatomy parse_url to_locale_string location.href)

  unfoldable pub on_hash_change : CardState → Page → Page
  on_hash_change ready p = inspect_link p
  on_hash_change invalid p = inspect_link p
  on_hash_change _ p = p

  unfoldable pub key_failed : Page → Error → Page
  key_failed p e = record (set_state ready p) {
    status = set_status (message_of rejection_text e) error;
    wait = nothing;
  }

  -- The request is sent, unless the ID cannot be encoded.
  unfoldable pub key_requested : Page → Result (Net × Settle) → Page
  unfolding key_failed
  key_requested p (err e) = key_failed p e
  key_requested p (ok (net, handle)) = record p { net = net; wait = for_key handle }

  unfoldable pub fetch_with : Page → Option Encrypted → Text → Page
  unfolding key_requested
  fetch_with p none id = p
  fetch_with p (some f) [] = p
  fetch_with p (some f) (d ∷ id) =
      key_requested (record (set_state busy p) { status = set_status fetching_text working })
        (start_fetch_key p.net (d ∷ id))

  -- A disabled button is not clicked.
  unfoldable pub on_click : Page → Page
  unfolding fetch_with
  on_click p = if p.disabled then p else fetch_with p p.fragment share_id

  unfoldable pub give_up : Page → Text → Page
  give_up p message = record (set_state spent p) {
    status = set_status message error;
    wait = nothing;
  }

  -- With the key the decryption starts, of the fragment that the page holds by now; reading a field
  -- of `null` throws inside the `try`.
  unfoldable pub start_decrypt : Page → Text → Option Encrypted → Page
  unfolding give_up
  start_decrypt p pem none = give_up p undecryptable_text
  start_decrypt p pem (some f) = record p { wait = for_plaintext pem f }

  unfoldable pub key_arrived : Page → Result (Option Text) → Page
  unfolding key_failed give_up start_decrypt
  key_arrived p (err e) = key_failed p e
  key_arrived p (ok none) = give_up p spent_text
  key_arrived p (ok (some pem)) = start_decrypt p pem p.fragment

  unfoldable pub on_reply : Page → Wait → Option Response → Page
  unfolding key_arrived
  on_reply p (for_key handle) response =
      let (net, key) = finish_fetch_key p.net handle response in
      key_arrived (record p { net = net }) key
  on_reply p nothing response = p
  on_reply p (for_plaintext pem f) response = p

  unfoldable pub show_plaintext : Page → ℕ → Result Text → Page
  unfolding give_up
  show_plaintext p now (err e) = give_up p undecryptable_text
  show_plaintext p now (ok plaintext) = record (set_state open_note p) {
    shown = some (Reveal.reveal to_locale_string auto_hide_seconds now plaintext p.status);
    status = set_status decrypted_text success;
    wait = nothing;
  }

  unfoldable pub on_decrypted : Page → Wait → ℕ → Page
  unfolding show_plaintext
  on_decrypted p (for_plaintext pem f) now =
      show_plaintext p now (decrypt_message crypto pem f.wrapped f.iv f.ct)
  on_decrypted p nothing now = p
  on_decrypted p (for_key handle) now = p

  -- The note's events set the status line that the page shares with them.
  unfoldable pub on_shown : Page → Option Shown → Reveal.Event → Page
  on_shown p none e = p
  on_shown p (some s) e =
      let s' = Reveal.step to_locale_string auto_hide_seconds (record s { status = p.status }) e in
      record p { shown = some s'; status = s'.status }

  unfoldable pub step : Page → Event → Page
  step p (hash_change location) = on_hash_change p.state (record p { location = location })
  step p click = on_click p
  step p (reply response) = on_reply p p.wait response
  step p (decrypted now) = on_decrypted p p.wait now
  step p (shown_event e) = on_shown p p.shown e

  unfoldable pub run : Page → List Event → Page
  run p [] = p
  run p (e ∷ es) = run (step p e) es
