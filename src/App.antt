-- ===== src/App.antt =====
-- static/app.js: the start of a page, whose address is the first line of the ledger.
use key_bank.Base.{not, Bool, [], ◌∷◌, Option, none, some, Text, codes}
use key_bank.Js.Url.{text_eq}
use key_bank.Api.{Ledger, record_request, settle, default_note}

-- `dataset.page` as a key of `pages`.
pub data Start : Type 0 where
  create share other : Start

-- `window.location`, as far as the start reads it.
pub record Address : Type 0 where
  pub protocol : Text
  pub pathname : Text
  pub hash : Text

abbrev pub fragment_note : Text
fragment_note = codes "Nothing but the address. The #fragment stayed in this browser."

abbrev pub note_for : Text → Text
note_for [] = default_note
note_for (c ∷ hash) = fragment_note

-- The entry is made, and its reply filled in at once.
unfoldable pub first_ledger : Ledger → Address → Ledger
first_ledger ledger address =
    let (ledger', handle) =
      record_request ledger (codes "GET") address.pathname none (note_for address.hash) in
    settle ledger' handle (codes "200 · this page")

-- What the start sets: whether the warning about HTTP is hidden, and the ledger.
pub record Started : Type 0 where
  pub warning_hidden : Bool
  pub ledger : Ledger

abbrev pub begun : Bool → Address → Started
begun shown address = record {
  warning_hidden = not (text_eq address.protocol (codes "http:"));
  ledger = first_ledger (record { shown = shown; entries = [] }) address;
}

-- `shown` is whether the page has a ledger. A page without a script is left alone.
unfoldable pub start : Start → Bool → Address → Option Started
start create shown address = some (begun shown address)
start share shown address = some (begun shown address)
start other shown address = none
