-- ===== src/Server/System/Probe.antt =====
-- server.go: HEAD for a key, which the pattern for GET lets through.
use key_bank.Base.{
  codes, ◌≡◌, ◌∙◌, refl, ap, true, List, [], Option, none, some, Text, Bytes, All, ℕ,
}
use key_bank.Js.Url.{text_eq}
use key_bank.Server.Store.{Record, KeyStore}
use key_bank.Server.Store.Contract.{IsKeyStore}
use key_bank.Server.Handlers.Keys.{reply_to}
use key_bank.Server.Routes.{is_get, Server}
use key_bank.Server.System.{
  Incoming, on_wire, answer, after, after_all, IsFetched, IsApart, IsOther,
}
use key_bank.Server.System.Others.{others-Kept}
use key_bank.Server.System.Steps.{fetched_found, fetched_nothing, fetched_gone}
use key_bank.Server.System.Exchange.{on_wire_get, gets}

module _ (ks : KeyStore) (view : ks.State → ℕ → Text → Option Record)
    (MayUse : ks.Call → Text → Type 0) (IsStorable : Record → ℕ → Type 0)
    (IsSure : ks.Call → Type 0) (laws : IsKeyStore ks view MayUse IsStorable IsSure)
    (LimiterCall : Type 0) (server : Server ks LimiterCall) (id : Text)
    (apart : IsApart ks LimiterCall server view MayUse id) where
  on_wire_head : (a : Option ℕ × Bytes) → (on_wire ks LimiterCall server (codes "HEAD") a).1 ≡ []
  unfolding text_eq codes
  on_wire_head a = refl

  head_gets : is_get (codes "HEAD") ≡ true
  unfolding text_eq codes
  head_gets = refl

  -- For a store that keeps the contract, and limiters, a file server and a redirect that leave the key of
  -- the ID alone: let a HEAD request to `/api/keys/` with the ID come, then requests that neither ask for
  -- the ID nor store under it, and then a GET request for the ID, where the limiter lets both through and
  -- the store answers both. Then the answer to HEAD has no body, and the one to GET is 404, whatever key was there.
  pub answer-head :
      (s : ks.State) (head : Incoming ks LimiterCall server)
      (later : List (Incoming ks LimiterCall server)) (get : Incoming ks LimiterCall server)
      → IsFetched ks LimiterCall server (codes "HEAD") s head id
      → All (IsOther ks LimiterCall server view MayUse id) later
      → IsFetched ks LimiterCall server
          (codes "GET")
          (after_all ks LimiterCall server (after ks LimiterCall server s head) later)
          get
          id
      → ((answer ks LimiterCall server s head).1 ≡ [])
        × ((answer ks LimiterCall server
              (after_all ks LimiterCall server (after ks LimiterCall server s head) later)
              get).0
            ≡ some 404)
  answer-head s head later get f o f' =
      let gone =
        fetched_gone ks view MayUse IsStorable IsSure laws LimiterCall server id apart
          (codes "HEAD") head_gets head s f in
      let s1 = after ks LimiterCall server s head in
      let s2 = after_all ks LimiterCall server s1 later in
      let empty : view s2 get.0.now id ≡ none =
        others-Kept ks view MayUse IsStorable IsSure laws LimiterCall server id apart later s1 o
          get.0.now
        ∙ gone get.0.now in
      (
        ap (λ a. a.1)
              (fetched_found ks view MayUse IsStorable IsSure laws LimiterCall server id apart
                (codes "HEAD") head_gets head s f)
            ∙ on_wire_head (reply_to f.found),
        ap (λ a. a.0)
            (fetched_nothing ks view MayUse IsStorable IsSure laws LimiterCall server id apart
                (codes "GET") (gets ks LimiterCall server) get s2 f' empty
              ∙ on_wire_get ks LimiterCall server (reply_to none)),
      )
