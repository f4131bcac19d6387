-- ===== src/Examples/Writing.antt =====
-- Examples of the create page, static/create.js, and of the start of a page, static/app.js.
use key_bank.Base.{
  ◌≤◌, ◌≡◌, refl, true, false, List, [], ◌∷◌, none, some, codes, ok, err, rejected, arith, All, inr,
}
use key_bank.Js.Number.{decimal}
use key_bank.Ui.{Status, set_status, idle}
use key_bank.Api.{Net, record_request, set_received, settle}
use key_bank.Api.Faithful.{IsFaithful}
use key_bank.Create.Expiry.{
  seconds, custom, whole, Form, selected_ttl, configure_expiry_options, page_max_ttl, ensure_choice,
}
use key_bank.Create.Expiry.Choice.{IsLongPreset, selected_ttl-bounds}
use key_bank.Create.Expiry.Available.{HasChoice, Answers, configure_expiry_options-Answers}
use key_bank.Create.Page.{
  Env, Page, Event, pick, submit, type_message, reply, encrypted, new_note, init_create_page,
  template_page, run,
}
use key_bank.Create.Page.Requests.{Inv}
use key_bank.Create.Page.Preserved.{init_create_page-Inv}
use key_bank.App.{Address, first_ledger, begun}
use key_bank.Examples.Browser.{browser}

abbrev template : Form
template = record {
  presets =
      record { value = seconds 3600; checked = false; disabled = false }
      ∷ record { value = seconds 86400; checked = true; disabled = false }
      ∷ record { value = seconds 604800; checked = false; disabled = false }
      ∷ record { value = custom; checked = false; disabled = false }
      ∷ [];
  minutes = whole 60;
  max_minutes = 10080;
}

template-IsLong : All IsLongPreset template.presets
template-IsLong = (omega arith, (omega arith, (omega arith, (tt, tt))))

a_day : selected_ttl decimal template (page_max_ttl none) ≡ ok 86400
unfolding selected_ttl page_max_ttl
a_day = refl

selected_ttl-bounds_example : (60 ≤ 86400) × (86400 ≤ 604800) × (86400 ≤ page_max_ttl none)
selected_ttl-bounds_example = selected_ttl-bounds decimal template none 86400 template-IsLong a_day

configure_expiry_options-Answers_example :
    (form' : Form) × (configure_expiry_options template 7200 ≡ ok form')
    × HasChoice form'.presets
    × Answers decimal (selected_ttl decimal form' 7200)
configure_expiry_options-Answers_example =
    configure_expiry_options-Answers decimal template 7200 (omega arith) refl

abbrev env : Env
env = record {
  crypto = browser;
  parse_url = λ href. err rejected;
  json = λ text. ok (record { id = codes "0a"; pub_pem = text });
  to_locale_string = decimal;
  origin = codes "https://bank";
  rejection_text = codes "Invalid URL";
  qr_library = some (λ text. true);
  has_dialog = true;
  can_share = false;
  default_form = template;
  configured_max_ttl = none;
}

abbrev address : Address
address = record { protocol = codes "https:"; pathname = codes "/"; hash = [] }

abbrev line : Status
line = set_status (codes "Ready.") idle

-- The page itself has been asked for.
abbrev started : Net
started = record {
  ledger = (begun true address).ledger;
  requests = record { method = codes "GET"; path = codes "/"; body = none } ∷ [];
}

started-IsFaithful : IsFaithful started
unfolding first_ledger record_request settle set_received
started-IsFaithful = record {
  shown = refl;
  all_show = (record { same_method = refl; same_path = refl; shows_body = refl }, tt);
}

abbrev page : Page
page = record (template_page env started [] line) { form = template }

begins : init_create_page env started [] line ≡ ok page
unfolding init_create_page configure_expiry_options ensure_choice page_max_ttl
begins = refl

abbrev writing : List (Event Unit)
writing =
    type_message (codes "Hi")
    ∷ pick 0
    ∷ submit
    ∷ reply (some (record { status = 201; text = ok (codes "key") }))
    ∷ encrypted tt
    ∷ new_note
    ∷ []

init_create_page-Inv_example : Inv env (run env page writing)
init_create_page-Inv_example =
    init_create_page-Inv env started [] line page writing template-IsLong started-IsFaithful
      (inr refl, tt) begins
