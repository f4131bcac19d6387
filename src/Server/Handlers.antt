-- ===== src/Server/Handlers.antt =====
-- handlers/handlers.go: the keys and the pages over HTTP.
pub mod Lifetime
pub mod Keys
pub mod Gone
use key_bank.Base.{
  ℕ, zero, suc, ◌+◌, ◌*◌, ◌/◌, min, Bool, true, false, ◌||◌, ◌&&◌, List, [], ◌∷◌, ◌++◌, Option,
  none, some, Text, Bytes, codes, ltb, leb, ◌==◌, if◌then◌else◌,
}
use key_bank.Server.Go.{Try, fails, gives, ℤ, pos, negsuc, second}
use key_bank.Server.Store.{KeyStore, adapter_save, adapter_load}
use key_bank.Server.Http.{
  Request, Writer, set_header, write_header, write, http_error, internal_error, not_found, Outcome,
  finished, panicked, Handler,
}

abbrev pub min_ttl : ℕ
min_ttl = 60 * second

abbrev pub max_allowed_ttl : ℕ
max_allowed_ttl = 604800 * second

abbrev pub default_ttl : ℕ
default_ttl = 86400 * second

abbrev pub default_auto_hide_seconds : ℕ
default_auto_hide_seconds = 60

pub record VendorScript : Type 0 where
  pub src : Text
  pub integrity : Text

pub record PageData : Type 0 where
  pub title : Text
  pub page : Text
  pub body_class : Text
  pub body_template : Text
  pub script_path : Text
  pub vendor_scripts : List VendorScript
  pub share_id : Text
  pub auto_hide_seconds : ℕ
  pub max_ttl_seconds : ℕ
  pub status_code : ℕ

-- `templates` executes the template "base", unless none are configured. The loggers are left out.
pub record Handlers : Type 0 where
  pub templates : Option (PageData → Try Bytes)
  pub auto_hide : ℕ
  pub max_ttl : ℕ

-- `New`
abbrev pub new_handlers : Option (PageData → Try Bytes) → Handlers
new_handlers templates = record {
  templates = templates;
  auto_hide = default_auto_hide_seconds;
  max_ttl = max_allowed_ttl;
}

abbrev pub set_auto_hide_seconds : ℤ → Handlers → Handlers
set_auto_hide_seconds (pos n) h = if ltb 0 n then record h { auto_hide = n } else h
set_auto_hide_seconds (negsuc n) h = h

unfoldable pub set_max_ttl : ℤ → Handlers → Handlers
set_max_ttl (pos ttl) h =
    if leb min_ttl ttl && leb ttl max_allowed_ttl then record h { max_ttl = ttl } else h
set_max_ttl (negsuc n) h = h

-- As `newAppHandler` makes the handlers.
unfoldable pub configured_handlers : Option (PageData → Try Bytes) → ℤ → ℤ → Handlers
unfolding set_max_ttl
configured_handlers templates auto_hide ttl =
    set_max_ttl ttl (set_auto_hide_seconds auto_hide (new_handlers templates))

-- What the decoder finds after the first value.
pub data Rest : Type 0 where
  nothing_more something_more too_much_more : Rest

-- What the decoder finds: no value at all, no request, more bytes than the limit, `null`, or a request
-- with this TTL (0 where it has none); or it panics.
pub data Decoded : Type 0 where
  end_of_body malformed too_large null crashes : Decoded
  request : ℤ → Rest → Decoded

pub record KeyPair : Type 0 where
  pub public_pem : Bytes
  pub private_pem : Bytes

-- `encoding/json`: the decoder with unknown fields disallowed, for a body with a limit, and the text of
-- a response.
pub record Json : Type 0 where
  pub decode : Bytes → Option ℕ → Decoded
  pub key_response : Text → Bytes → Try Bytes

abbrev pub write_json_error : ℕ → Text → Writer → Writer
write_json_error status code w =
    write (codes "{\"error\":\"" ++ (code ++ codes "\"}\n"))
      (write_header status (set_header (codes "Content-Type") (codes "application/json") w))

abbrev pub invalid_request : Writer → Writer
invalid_request = write_json_error 400 (codes "invalid_request")

abbrev pub request_body_too_large : Writer → Writer
request_body_too_large = write_json_error 413 (codes "request_body_too_large")

-- The TTL that a request asks for, unless it is out of range; 0 asks for the default.
unfoldable pub chosen_ttl : ℕ → ℤ → Option ℕ
chosen_ttl max_ttl (negsuc n) = none
chosen_ttl max_ttl (pos zero) = some (min default_ttl max_ttl)
chosen_ttl max_ttl (pos (suc n)) =
    if ltb (suc n) (min_ttl / second) || ltb (max_ttl / second) (suc n)
    then none
    else some (suc n * second)

-- What the world adds to a request: the time, the key pair that `generateKey` makes, what the key store
-- needs, and what the rate limiter needs.
pub record World (Call LimiterCall : Type 0) : Type 0 where
  pub now : ℕ
  pub keys : Try KeyPair
  pub call : Call
  pub limiter_call : LimiterCall

module _ (ks : KeyStore) (json : Json) (LimiterCall : Type 0) (h : Handlers) where
  abbrev pub Served : Type 0
  Served = Handler ks.State (World ks.Call LimiterCall)

  abbrev pub key_written : ks.State → Writer → Try Bytes → Outcome ks.State
  key_written s w fails = finished s (internal_error w)
  key_written s w (gives body) = finished s (
      write body
        (write_header 201 (set_header (codes "Content-Type") (codes "application/json") w)))

  abbrev pub key_saved : Writer → KeyPair → ks.State × Try Text → Outcome ks.State
  key_saved w keys (s, fails) = finished s (internal_error w)
  key_saved w keys (s, gives id) = key_written s w (json.key_response id keys.public_pem)

  abbrev pub key_generated :
      World ks.Call LimiterCall → ks.State → Writer → ℕ → Try KeyPair → Outcome ks.State
  key_generated world s w ttl fails = finished s (internal_error w)
  key_generated world s w ttl (gives keys) =
      key_saved w keys (adapter_save ks world.call world.now s keys.private_pem ttl)

  abbrev pub create_with :
      World ks.Call LimiterCall → ks.State → Writer → Option ℕ → Outcome ks.State
  create_with world s w none = finished s (write_json_error 400 (codes "invalid_ttl") w)
  create_with world s w (some ttl) = key_generated world s w ttl world.keys

  abbrev pub create_decoded :
      World ks.Call LimiterCall → ks.State → Writer → Decoded → Outcome ks.State
  create_decoded world s w end_of_body = create_with world s w (chosen_ttl h.max_ttl (pos 0))
  create_decoded world s w malformed = finished s (invalid_request w)
  create_decoded world s w too_large = finished s (request_body_too_large w)
  create_decoded world s w null = finished s (invalid_request w)
  create_decoded world s w crashes = panicked s w
  create_decoded world s w (request ttl nothing_more) =
      create_with world s w (chosen_ttl h.max_ttl ttl)
  create_decoded world s w (request ttl something_more) = finished s (invalid_request w)
  create_decoded world s w (request ttl too_much_more) = finished s (request_body_too_large w)

  unfoldable pub create_key : Served
  create_key world s w r = create_decoded world s w (json.decode r.body r.limit)

  abbrev pub key_loaded : Writer → ks.State × Try (Option Bytes) → Outcome ks.State
  key_loaded w (s, fails) = finished s (internal_error w)
  key_loaded w (s, gives none) = finished s (not_found w)
  key_loaded w (s, gives (some key)) = finished s (write key (write_header 200 w))

  unfoldable pub fetch_key : Served
  fetch_key world s w r = key_loaded w (adapter_load ks world.call world.now s r.id)

  abbrev pub status_of : ℕ → ℕ
  status_of status_code = if status_code == 0 then 200 else status_code

  abbrev pub page_written : PageData → Writer → Try Bytes → Writer
  page_written page w fails = internal_error w
  page_written page w (gives body) = write body (
      write_header (status_of page.status_code)
        (set_header (codes "Content-Type") (codes "text/html; charset=utf-8") w))

  abbrev pub rendered : Option (PageData → Try Bytes) → PageData → Writer → Writer
  rendered none page w = internal_error w
  rendered (some execute) page w = page_written page w (execute page)

  unfoldable pub render_page : PageData → Writer → Writer
  render_page page w = rendered h.templates page w

  abbrev pub home_data : PageData
  home_data = record {
    title = codes "Create a secure note";
    page = codes "create";
    body_class = codes "page-create";
    body_template = codes "create-body";
    script_path = codes "/static/app.js";
    vendor_scripts =
        record {
          src = codes "/static/qrcode.js";
          integrity =
              codes "sha384-ahLw45Nl1X/zUAno5v8A1m7qYEzDIOrQtPeIGkG/a+vFi9BC17OhLEhzDJZUHqN2";
        }
        ∷ [];
    share_id = [];
    auto_hide_seconds = h.auto_hide;
    max_ttl_seconds = h.max_ttl / second;
    status_code = 0;
  }

  unfoldable pub home_page : Served
  home_page world s w r = finished s (render_page home_data w)

  abbrev pub not_found_data : PageData
  not_found_data = record {
    title = codes "Page not found";
    page = codes "error";
    body_class = codes "page-error";
    body_template = codes "error-body";
    script_path = [];
    vendor_scripts = [];
    share_id = [];
    auto_hide_seconds = 0;
    max_ttl_seconds = 0;
    status_code = 404;
  }

  unfoldable pub not_found_page : Served
  not_found_page world s w r = finished s (render_page not_found_data w)

  abbrev pub share_data : Text → PageData
  share_data id = record {
    title = codes "Open a shared note";
    page = codes "share";
    body_class = codes "page-share";
    body_template = codes "share-body";
    script_path = codes "/static/app.js";
    vendor_scripts = [];
    share_id = id;
    auto_hide_seconds = h.auto_hide;
    max_ttl_seconds = 0;
    status_code = 0;
  }

  unfoldable pub share_page : Served
  share_page world s w r = finished s (render_page (share_data r.id) w)
