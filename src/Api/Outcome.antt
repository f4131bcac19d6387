-- ===== src/Api/Outcome.antt =====
-- What the two calls of the server come to, for each reply.
use key_bank.Base.{◌≡◌, refl, ◌↔◌, Option, none, some, Text, Result, ok, err, ◌>>=◌, arith, ◌≤◌}
use key_bank.Api.{Net, Response, Settle, Key, finish_fetch_key, finish_create_key}

-- `fetchKey` yields a key exactly for a reply with a status from 200 to 299 whose body can be read, and
-- then the reply's text.
pub finish_fetch_key-eq-some_iff :
    (net : Net) (handle : Settle) (reply : Option Response) (pem : Text)
    → ((finish_fetch_key net handle reply).1 ≡ ok (some pem)) ↔ (
        (response : Response) × (reply ≡ some response)
        × (200 ≤ response.status)
        × (response.status ≤ 299)
        × (response.text ≡ ok pem))
unfolding finish_fetch_key
finish_fetch_key-eq-some_iff net handle none pem = (λ h. cc, λ h. ground arith)
finish_fetch_key-eq-some_iff net handle (some response) pem =
    (λ h. (response, refl, ground arith, ground arith, ground arith), λ h. ground arith)

-- `fetchKey` yields `null` exactly for a reply with status 404.
pub finish_fetch_key-eq-none_iff :
    (net : Net) (handle : Settle) (reply : Option Response)
    → ((finish_fetch_key net handle reply).1 ≡ ok none)
      ↔ ((response : Response) × (reply ≡ some response) × (response.status ≡ 404))
unfolding finish_fetch_key
finish_fetch_key-eq-none_iff net handle none = (λ h. cc, λ h. ground arith)
finish_fetch_key-eq-none_iff net handle (some response) =
    (λ h. (response, refl, ground arith), λ h. ground arith)

-- `fetchKey` yields a key exactly for a reply with a status from 200 to 299 whose body can be read, and
-- then the reply's text, and `null` exactly for a reply with status 404.
pub finish_fetch_key_iff :
    (net : Net) (handle : Settle) (reply : Option Response) (pem : Text)
    → (((finish_fetch_key net handle reply).1 ≡ ok (some pem)) ↔ (
        (response : Response) × (reply ≡ some response)
        × (200 ≤ response.status)
        × (response.status ≤ 299)
        × (response.text ≡ ok pem)))
      × (((finish_fetch_key net handle reply).1 ≡ ok none)
          ↔ ((response : Response) × (reply ≡ some response) × (response.status ≡ 404)))
finish_fetch_key_iff net handle reply pem = (
  finish_fetch_key-eq-some_iff net handle reply pem,
  finish_fetch_key-eq-none_iff net handle reply,
)

-- What is made of a text, if there is one.
bind_iff :
    (json : Text → Result Key) (r : Result Text) (key : Key)
    → ((r >>= json) ≡ ok key) ↔ ((text : Text) × (r ≡ ok text) × (json text ≡ ok key))
bind_iff json (err e) key = (λ h. cc, λ h. ground arith)
bind_iff json (ok text) key = (λ h. (text, refl, h), λ h. ground arith)

-- `createKey` yields a key exactly for a reply with a status from 200 to 299 whose body can be read and
-- whose text is that key as JSON.
pub finish_create_key-eq-ok_iff :
    (json : Text → Result Key) (net : Net) (handle : Settle) (reply : Option Response) (key : Key)
    → ((finish_create_key json net handle reply).1 ≡ ok key) ↔ (
        (response : Response) × (reply ≡ some response)
        × (200 ≤ response.status)
        × (response.status ≤ 299)
        × (text : Text) × (response.text ≡ ok text)
        × (json text ≡ ok key))
unfolding finish_create_key
finish_create_key-eq-ok_iff json net handle none key = (λ h. cc, λ h. ground arith)
finish_create_key-eq-ok_iff json net handle (some response) key = (
  λ h.
      let made : (response.text >>= json) ≡ ok key = ground arith in
      let (text, read, parsed) = (bind_iff json response.text key).0 made in
      (response, refl, ground arith, ground arith, text, read, parsed),
  λ h.
      let (r, same, low, high, text, read, parsed) = h in
      let made : (r.text >>= json) ≡ ok key = (bind_iff json r.text key).1 (text, read, parsed) in
      ground arith,
)
