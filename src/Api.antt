-- ===== src/Api.antt =====
-- static/api.js: the ledger of the page's requests, and the two calls of the server. `Net` is what
-- the module shares with the world: the ledger, and the requests that the page has made of the server.
pub mod Faithful
pub mod Outcome
use key_bank.Base.{
  ℕ, zero, suc, Bool, true, false, ◌&&◌, List, [], ◌∷◌, ◌++◌, Option, none, some, Text, codes,
  Result, ok, err, thrown, ◌>>=◌, length, leb, ◌==◌, if◌then◌else◌,
}
use key_bank.Js.Number.{decimal}
use key_bank.Js.Url.{encode_uri_component}

-- A line of the ledger. `literal` is the class of a body that is shown verbatim.
pub record Entry : Type 0 where
  pub method : Text
  pub path : Text
  pub sent : Text
  pub literal : Bool
  pub received : Text

-- `shown` is whether the page has the list and its template.
pub record Ledger : Type 0 where
  pub shown : Bool
  pub entries : List Entry

-- What `fetch` is given, the headers left out.
pub record Request : Type 0 where
  pub method : Text
  pub path : Text
  pub body : Option Text

pub record Net : Type 0 where
  pub ledger : Ledger
  pub requests : List Request

-- `text` is what `response.text()` comes to: the body may break off.
pub record Response : Type 0 where
  pub status : ℕ
  pub text : Result Text

-- `body ?? note`
abbrev pub sent_text : Option Text → Text → Text
sent_text none note = note
sent_text (some body) note = body

abbrev pub is_given : Option Text → Bool
is_given none = false
is_given (some body) = true

abbrev pub default_note : Text
default_note = codes "Nothing but the address"

-- The callback that `record` returns: the entry that it fills in, or nothing.
abbrev pub Settle : Type 0
Settle = Option ℕ

abbrev pub new_entry : Text → Text → Option Text → Text → Entry
new_entry method path body note = record {
  method = method;
  path = path;
  sent = sent_text body note;
  literal = is_given body;
  received = codes "Waiting…";
}

unfoldable pub record_request : Ledger → Text → Text → Option Text → Text → Ledger × Settle
record_request ledger method path body note =
    if ledger.shown
    then (
      record ledger { entries = ledger.entries ++ new_entry method path body note ∷ [] },
      some (length ledger.entries),
    )
    else (ledger, none)

unfoldable pub set_received : List Entry → ℕ → Text → List Entry
set_received [] i reply = []
set_received (e ∷ es) zero reply = record e { received = reply } ∷ es
set_received (e ∷ es) (suc i) reply = e ∷ set_received es i reply

unfoldable pub settle : Ledger → Settle → Text → Ledger
unfolding set_received
settle ledger none reply = ledger
settle ledger (some i) reply = record ledger { entries = set_received ledger.entries i reply }

-- `send` up to the `await`: the ledger is written, then `fetch` is called.
unfoldable pub start_send : Net → Text → Text → Option Text → Net × Settle
unfolding record_request
start_send net method path body =
    let (ledger, handle) = record_request net.ledger method path body default_note in
    (
      record {
        ledger = ledger;
        requests = net.requests ++ record { method = method; path = path; body = body } ∷ [];
      },
      handle,
    )

abbrev pub unreachable : Text
unreachable = codes "Could not reach KeyBank. Check your connection and try again."

-- `send` after the `await`; `none` is a `fetch` that rejects.
unfoldable pub finish_send : Net → Settle → (ℕ → Text) → Option Response → Net × Result Response
unfolding settle
finish_send net handle describe none = (
  record net { ledger = settle net.ledger handle (codes "No response") },
  err (thrown unreachable),
)
finish_send net handle describe (some response) = (
  record net {
    ledger =
        settle net.ledger handle
          (decimal response.status ++ (codes " · " ++ describe response.status));
  },
  ok response,
)

-- `response.ok`
abbrev pub is_ok : ℕ → Bool
is_ok status = leb 200 status && leb status 299

-- `failureMessages[status] ?? otherwise`
unfoldable pub failure_message : ℕ → Text → Text
failure_message status otherwise =
    if status == 400
    then codes "KeyBank rejected that expiry. Pick another and try again."
    else if status == 413
    then codes "The request was too large."
    else if status == 429
    then codes "Too many requests. Wait a moment and try again."
    else otherwise

-- `JSON.stringify({ ttl })`
unfoldable pub create_body : ℕ → Text
create_body ttl = codes "{\"ttl\":" ++ (decimal ttl ++ codes "}")

abbrev pub describe_create : ℕ → Text
describe_create status =
    if status == 201 then codes "a key ID and a public key" else codes "an error, no key"

unfoldable pub start_create_key : Net → ℕ → Net × Settle
unfolding start_send
start_create_key net ttl =
    start_send net (codes "POST") (codes "/api/keys") (some (create_body ttl))

-- What `response.json()` yields, once the body is there: the ID and the public key.
pub record Key : Type 0 where
  pub id : Text
  pub pub_pem : Text

unfoldable pub created : (Text → Result Key) → Result Response → Result Key
created json (err e) = err e
created json (ok response) =
    if is_ok response.status
    then (response.text >>= json)
    else err (
        thrown (
          failure_message response.status
            (codes "KeyBank could not create a key. Try again shortly.")))

unfoldable pub finish_create_key :
    (Text → Result Key) → Net → Settle → Option Response → Net × Result Key
unfolding finish_send created
finish_create_key json net handle reply =
    let (net', response) = finish_send net handle describe_create reply in
    (net', created json response)

abbrev pub describe_fetch : ℕ → Text
describe_fetch status =
    if status == 200
    then codes "the private key, now deleted from KeyBank"
    else if status == 404
    then codes "nothing: already opened or expired"
    else codes "an error"

-- `encodeURIComponent` throws before the request is made, if the ID is no well-formed text.
unfoldable pub start_fetch_key : Net → Text → Result (Net × Settle)
unfolding start_send
start_fetch_key net id = do
  id_text ← encode_uri_component id
  ok (start_send net (codes "GET") (codes "/api/keys/" ++ id_text) none)

-- `null` is `none`.
unfoldable pub fetched : Result Response → Result (Option Text)
fetched (err e) = err e
fetched (ok response) =
    if response.status == 404
    then ok none
    else if is_ok response.status
    then (response.text >>= λ text. ok (some text))
    else err (thrown (failure_message response.status (codes "Fetching the private key failed.")))

unfoldable pub finish_fetch_key : Net → Settle → Option Response → Net × Result (Option Text)
unfolding finish_send fetched
finish_fetch_key net handle reply =
    let (net', response) = finish_send net handle describe_fetch reply in (net', fetched response)
