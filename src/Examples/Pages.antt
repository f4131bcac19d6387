-- ===== src/Examples/Pages.antt =====
-- Examples of the share page, static/share.js.
use key_bank.Base.{
  ◌≡◌, ◌⊎◌, refl, true, false, List, [], ◌∷◌, ◌++◌, Option, none, some, Text, codes, ok,
}
use key_bank.Js.Number.{decimal}
use key_bank.Crypto.Codec.{base64_url_pattern}
use key_bank.Crypto.Message.{Encrypted, decrypt_message}
use key_bank.Link.{fragment_of}
use key_bank.Link.Fragment.{IsWellFormed}
use key_bank.Ui.{Anatomy, fill_anatomy, set_status, idle}
use key_bank.Api.{Net, Response, finish_fetch_key}
use key_bank.Api.Faithful.{IsFaithful}
use key_bank.Share.Reveal
use key_bank.Share.Page.{
  Env, ready, busy, Location, nothing, for_key, Page, Event, hash_change, click, reply, decrypted,
  shown_event, step, run,
}
use key_bank.Share.Page.Invariant.{Inv}
use key_bank.Share.Page.Safety.{AsksForKey, SendsNothing, step-requests}
use key_bank.Share.Page.Once.{asks_once}
use key_bank.Share.Page.Opening.{Ends, run-Ends}
use key_bank.Share.Page.Stale.{IsStale, unread_after_failure}
use key_bank.Examples.Browser.{browser}

abbrev pub note : Encrypted
note = record { wrapped = codes "AQ-_"; iv = codes "AA"; ct = codes "abcd" }

note-IsWellFormed : IsWellFormed note
unfolding codes base64_url_pattern
note-IsWellFormed = record { wrapped_ok = refl; iv_ok = refl; ct_ok = refl }

abbrev hash : Text
hash = b'#' ∷ fragment_of note

abbrev pub env : Env
env = record {
  crypto = browser;
  parse_url = λ href.
      ok (record { origin = codes "https://bank"; pathname = codes "/share/0a"; hash = codes "#" });
  to_locale_string = decimal;
  share_id = codes "0a";
  ready_message = codes "Ready.";
  rejection_text = codes "URI malformed";
  auto_hide_seconds = 60;
}

abbrev address : Location
address = record { href = codes "https://bank/share/0a"; hash = hash }

abbrev quiet : Net
quiet = record { ledger = record { shown = true; entries = [] }; requests = [] }

quiet-IsFaithful : IsFaithful quiet
quiet-IsFaithful = record { shown = refl; all_show = tt }

abbrev figure : Anatomy
figure =
    fill_anatomy decimal
      (record { sent = codes "https://bank" ++ codes "/share/0a"; kept = codes "#" }) (codes "#")

-- The page that has read its link.
abbrev page : Page
page = record {
  state = ready;
  disabled = false;
  status = set_status (codes "Ready.") idle;
  anatomy = figure;
  location = address;
  fragment = some note;
  wait = nothing;
  net = quiet;
  shown = none;
}

abbrev opening : List Event
opening =
    click
    ∷ reply (some (record { status = 200; text = ok (codes "key") }))
    ∷ decrypted 5
    ∷ shown_event (Reveal.tick 255)
    ∷ []

page-Inv : Inv page
page-Inv = record {
  button = refl;
  fragment_ok = note-IsWellFormed;
  phase = (refl, refl);
  faithful = quiet-IsFaithful;
}

step-requests_example :
    SendsNothing page (step env page click) ⊎ AsksForKey env page (step env page click)
step-requests_example = step-requests env page click page-Inv

-- The page after the click.
abbrev pub waiting : Page
waiting = record page { state = busy; disabled = true; wait = for_key none }

pub waiting-Inv : Inv waiting
waiting-Inv = record {
  button = refl;
  fragment_ok = note-IsWellFormed;
  phase = (tt, refl);
  faithful = quiet-IsFaithful;
}

abbrev gone : Option Response
gone = some (record { status = 404; text = ok [] })

gone_read : (finish_fetch_key quiet none gone).1 ≡ ok none
unfolding finish_fetch_key
gone_read = refl

asks_once_example :
    (run env
      (step env waiting (reply gone))
      (click ∷ hash_change address ∷ click ∷ [])).net.requests
    ≡ []
asks_once_example =
    asks_once env waiting none gone none (click ∷ hash_change address ∷ click ∷ []) waiting-Inv refl
      gone_read

abbrev elsewhere : Location
elsewhere = record { href = codes "https://bank/share/0a#x"; hash = codes "#x" }

unread_after_failure_example :
    IsStale waiting (run env waiting (hash_change elsewhere ∷ reply none ∷ [])) elsewhere
unread_after_failure_example = unread_after_failure env waiting none elsewhere waiting-Inv refl

abbrev delivered : Option Response
delivered = some (record { status = 200; text = ok (codes "key") })

key_read : (finish_fetch_key quiet none delivered).1 ≡ ok (some (codes "key"))
unfolding finish_fetch_key
key_read = refl

run-Ends_example :
    Ends
      (run env waiting (reply delivered ∷ decrypted 7 ∷ []))
      (decrypt_message browser (codes "key") note.wrapped note.iv note.ct)
run-Ends_example =
    run-Ends env waiting none delivered (codes "key") note 7 waiting-Inv refl refl key_read
