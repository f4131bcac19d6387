-- ===== src/Server/System/Browser.antt =====
-- static/share.js and the server together: from a key that is made to a note that is open.
use key_bank.Base.{
  codes, ℕ, ◌+◌, ◌<◌, ◌≡◌, refl, sym, ap, subst, List, [], ◌∷◌, Option, none, some, Text, Bytes,
  All, ok, arith,
}
use key_bank.Js.Utf8.{decode}
use key_bank.Js.Utf8.Ascii.{IsAscii, decode-IsAscii}
use key_bank.Crypto.Message.{Encrypted, decrypt_message}
use key_bank.Api.{Settle, Response, finish_fetch_key}
use key_bank.Api.Outcome.{finish_fetch_key_iff}
use key_bank.Share.Page
use key_bank.Share.Page.{spent, for_key, reply, decrypted, key_arrived, give_up, on_reply, run}
use key_bank.Share.Page.Invariant.{Inv}
use key_bank.Share.Page.Opening.{Ends, run-Ends}
use key_bank.Server.Store.{Record, KeyStore}
use key_bank.Server.Store.Contract.{IsKeyStore}
use key_bank.Server.Handlers.{KeyPair}
use key_bank.Server.Handlers.Keys.{record_of}
use key_bank.Server.Routes.{Server}
use key_bank.Server.System.{Incoming, answer, IsCreated, IsFetched, IsApart, IsOther}
use key_bank.Server.System.Exchange.{before_get, before_again, fetch-create}

-- What the browser makes of an answer; the whole body arrives, and `response.text()` decodes it.
abbrev pub response_of : Option ℕ × Bytes → Option Response
response_of (none, body) = none
response_of (some status, body) = some (record { status = status; text = ok (decode body) })

-- A reply with that status.
abbrev HasStatus : ℕ → Option Response → Type 0
HasStatus status received =
    (response : Response) × (received ≡ some response) × (response.status ≡ status)

answered :
    (a : Option ℕ × Bytes) (status : ℕ) → a.0 ≡ some status → HasStatus status (response_of a)
answered (none, body) status e = cc
answered (some n, body) status e =
    (record { status = n; text = ok (decode body) }, refl, ground arith)

module _ (env : Page.Env) where
  gives_up :
      (p : Page.Page) (handle : Settle) (response : Option Response)
      → p.wait ≡ for_key handle
      → (finish_fetch_key p.net handle response).1 ≡ ok none
      → (Page.step env p (reply response)).state ≡ spent
  unfolding Page.step on_reply key_arrived give_up
  gives_up p handle response w e =
      subst (λ w. (on_reply env p w response).state ≡ spent) (sym w)
        (subst
          (λ r.
            (key_arrived env (record p { net = (finish_fetch_key p.net handle response).0 })
              r).state
            ≡ spent)
          (sym e) refl)

  module _ (ks : KeyStore) (view : ks.State → ℕ → Text → Option Record)
      (MayUse : ks.Call → Text → Type 0) (IsStorable : Record → ℕ → Type 0)
      (IsSure : ks.Call → Type 0) (laws : IsKeyStore ks view MayUse IsStorable IsSure)
      (LimiterCall : Type 0) (server : Server ks LimiterCall) (id : Text)
      (apart : IsApart ks LimiterCall server view MayUse id) where
    abbrev I : Type 0
    I = Incoming ks LimiterCall server

    abbrev Others : List I → Type 0
    Others = All (IsOther ks LimiterCall server view MayUse id)

    -- Over a store that keeps the contract, and with limiters, a file server and a redirect that
    -- leave the key of this ID alone, let a POST for a new key be granted this ID with a
    -- private key in ASCII that the store promises to keep; then come requests that neither ask for
    -- the ID nor store under it, then a GET for the ID before the key's lifetime has passed, whose
    -- answer from the store is not lost, then
    -- others again, and then one more GET for the ID, where the limiter lets both through and the
    -- store answers both. A share page with the invariant that holds a note, waits for the key, and
    -- gets the first answer, then opens with what the private key decrypts, or is spent if it
    -- decrypts nothing; a page that waits for the key and gets the second answer is spent.
    pub reply-fetch :
        (s : ks.State) (post : I) (ttl : ℕ) (keys : KeyPair) (body : Bytes) (between : List I)
        (get : I) (later : List I) (again : I) (p : Page.Page) (handle : Settle) (f : Encrypted)
        (ended : ℕ) (q : Page.Page) (handle' : Settle)
        → IsCreated ks LimiterCall server s post ttl keys id body
        → IsStorable (record_of ks server.json LimiterCall server.handlers post.0 keys) ttl
        → All IsAscii keys.private_pem
        → Others between
        → IsFetched ks LimiterCall server
            (codes "GET")
            (before_get ks LimiterCall server s post between)
            get
            id
        → IsSure get.0.call
        → get.0.now < post.0.now + ttl
        → Others later
        → IsFetched ks LimiterCall server
            (codes "GET")
            (before_again ks LimiterCall server s post between get later)
            again
            id
        → Inv p
        → p.wait ≡ for_key handle
        → p.fragment ≡ some f
        → q.wait ≡ for_key handle'
        → Ends
            (run env p (
              reply (
                response_of (
                  answer ks LimiterCall server
                    (before_get ks LimiterCall server s post between)
                    get))
              ∷ decrypted ended
              ∷ []))
            (decrypt_message env.crypto keys.private_pem f.wrapped f.iv f.ct)
          × ((Page.step env q (
                reply (
                  response_of (
                    answer ks LimiterCall server
                      (before_again ks LimiterCall server s post between get later)
                      again)))).state
              ≡ spent)
    reply-fetch s post ttl keys body between get later again p handle f ended q handle' made
          storable ascii o got sure early o' got' inv w e w' =
        let (sent, first, second) =
          fetch-create ks view MayUse IsStorable IsSure laws LimiterCall server id apart s post ttl
            keys body between get later again made storable o got sure early o' got' in
        let reply1 =
          response_of
            (answer ks LimiterCall server (before_get ks LimiterCall server s post between) get) in
        let a2 =
          answer ks LimiterCall server (before_again ks LimiterCall server s post between get later)
            again in
        let key : (finish_fetch_key p.net handle reply1).1 ≡ ok (some keys.private_pem) =
          (finish_fetch_key_iff p.net handle reply1 keys.private_pem).0.1 (
            record { status = 200; text = ok (decode keys.private_pem) },
            ap response_of first,
            omega arith,
            omega arith,
            ap ok (decode-IsAscii keys.private_pem ascii),
          ) in
        (
          run-Ends env p handle reply1 keys.private_pem f ended inv w e key,
          gives_up q handle' (response_of a2) w' (
              (finish_fetch_key_iff q.net handle' (response_of a2) []).1.1
                (answered a2 404 second)),
        )
