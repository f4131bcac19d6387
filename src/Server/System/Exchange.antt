-- ===== src/Server/System/Exchange.antt =====
-- server.go: a key from its making to its second request.
use key_bank.Base.{
  codes, ℕ, ◌+◌, ◌<◌, ◌≡◌, ◌∙◌, refl, ap, true, List, Option, none, some, Text, Bytes, All,
}
use key_bank.Server.Store.{Record, KeyStore}
use key_bank.Server.Store.Contract.{IsKeyStore}
use key_bank.Server.Handlers.{KeyPair}
use key_bank.Server.Handlers.Keys.{reply_to, record_of}
use key_bank.Server.Routes.{is_get, Server}
use key_bank.Server.System.{
  Incoming, answer, after, after_all, IsCreated, IsFetched, IsApart, IsOther, on_wire,
}
use key_bank.Js.Url.{text_eq}
use key_bank.Server.System.Steps.{fetched_view, fetched_nothing, fetched_gone, created}
use key_bank.Server.System.Others.{others-Kept}

module _ (ks : KeyStore) (LimiterCall : Type 0) (server : Server ks LimiterCall) where
  abbrev Incomings : Type 0
  Incomings = Incoming ks LimiterCall server

  -- The state when the key is asked for, and when it is asked for again.
  abbrev pub before_get : ks.State → Incomings → List Incomings → ks.State
  before_get s post between =
      after_all ks LimiterCall server (after ks LimiterCall server s post) between

  abbrev pub before_again :
      ks.State → Incomings → List Incomings → Incomings → List Incomings → ks.State
  before_again s post between get later =
      after_all ks LimiterCall server (after ks LimiterCall server (before_get s post between) get)
        later

  -- Only HEAD loses a body.
  pub on_wire_get : (a : Option ℕ × Bytes) → on_wire ks LimiterCall server (codes "GET") a ≡ a
  unfolding text_eq codes
  on_wire_get a = refl

  pub gets : is_get (codes "GET") ≡ true
  unfolding text_eq codes
  gets = refl

  on_wire_post : (a : Option ℕ × Bytes) → on_wire ks LimiterCall server (codes "POST") a ≡ a
  unfolding text_eq codes
  on_wire_post a = refl

module _ (ks : KeyStore) (view : ks.State → ℕ → Text → Option Record)
    (MayUse : ks.Call → Text → Type 0) (IsStorable : Record → ℕ → Type 0)
    (IsSure : ks.Call → Type 0) (laws : IsKeyStore ks view MayUse IsStorable IsSure)
    (LimiterCall : Type 0) (server : Server ks LimiterCall) (id : Text)
    (apart : IsApart ks LimiterCall server view MayUse id) where
  abbrev I : Type 0
  I = Incoming ks LimiterCall server

  abbrev Others : List I → Type 0
  Others = All (IsOther ks LimiterCall server view MayUse id)

  -- Over a store that keeps the contract, let a POST for a new key be granted this ID, then come
  -- requests that neither ask for the ID nor store under it, then a GET for the ID before the key's
  -- lifetime has passed, whose answer from the store is not lost, then others again, and then one
  -- more GET for the ID, where the limiter lets both through and the store answers both. Then the first client gets 201, the second the
  -- private key, and the third 404.
  pub fetch-create :
      (s : ks.State) (post : I) (ttl : ℕ) (keys : KeyPair) (body : Bytes) (between : List I)
      (get : I) (later : List I) (again : I)
      → IsCreated ks LimiterCall server s post ttl keys id body
      → IsStorable (record_of ks server.json LimiterCall server.handlers post.0 keys) ttl
      → Others between
      → IsFetched ks LimiterCall server
          (codes "GET")
          (before_get ks LimiterCall server s post between)
          get
          id
      → IsSure get.0.call
      → get.0.now < post.0.now + ttl
      → Others later
      → IsFetched ks LimiterCall server
          (codes "GET")
          (before_again ks LimiterCall server s post between get later)
          again
          id
      → (answer ks LimiterCall server s post ≡ (some 201, body))
        × (answer ks LimiterCall server (before_get ks LimiterCall server s post between) get
            ≡ (some 200, keys.private_pem))
        × ((answer ks LimiterCall server
              (before_again ks LimiterCall server s post between get later)
              again).0
            ≡ some 404)
  fetch-create s post ttl keys body between get later again made storable o f sure early o' f' =
      let (saved, sent) = created ks LimiterCall server post s ttl keys id body made in
      let s1 = after ks LimiterCall server s post in
      let s2 = after_all ks LimiterCall server s1 between in
      let s3 = after ks LimiterCall server s2 get in
      let s4 = after_all ks LimiterCall server s3 later in
      let get_it = gets ks LimiterCall server in
      let first =
        fetched_view ks view MayUse IsStorable IsSure laws LimiterCall server id apart (codes "GET")
          get_it get s2 f sure in
      let gone =
        fetched_gone ks view MayUse IsStorable IsSure laws LimiterCall server id apart (codes "GET")
          get_it get s2 f in
      let there : view s2 get.0.now id
          ≡ some (record_of ks server.json LimiterCall server.handlers post.0 keys) =
        others-Kept ks view MayUse IsStorable IsSure laws LimiterCall server id apart between s1 o
          get.0.now
        ∙ ap (λ m. view m get.0.now id) saved
        ∙ laws.save_kept post.0.call post.0.now _ _ ttl id get.0.now storable made.granted.saved
            early in
      let not_there : view s4 again.0.now id ≡ none =
        others-Kept ks view MayUse IsStorable IsSure laws LimiterCall server id apart later s3 o'
          again.0.now
        ∙ gone again.0.now in
      (
        sent ∙ on_wire_post ks LimiterCall server (some 201, body),
        first
            ∙ on_wire_get ks LimiterCall server (reply_to (view s2 get.0.now id))
            ∙ ap reply_to there,
        ap (λ a. a.0)
            (fetched_nothing ks view MayUse IsStorable IsSure laws LimiterCall server id apart
                (codes "GET") get_it again s4 f' not_there
              ∙ on_wire_get ks LimiterCall server (reply_to none)),
      )
