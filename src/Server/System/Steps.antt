-- ===== src/Server/System/Steps.antt =====
-- server.go: what one request for a key comes to.
use key_bank.Base.{
  codes, ℕ, ◌*◌, ◌≡◌, ◌∙◌, refl, sym, ap, subst, Bool, true, false, [], ◌∷◌, ◌≢◌, Option, none,
  some, Text, Bytes,
}
use key_bank.Js.Url.{text_eq}
use key_bank.Server.Go.{gives}
use key_bank.Server.Store.{Record, KeyStore}
use key_bank.Server.Store.Contract.{IsKeyStore}
use key_bank.Server.Http.{
  Request, Writer, fresh, set_header, Handler, Outcome, finished, panicked, state_of, answer_of,
  EndsWith,
}
use key_bank.Server.Handlers.{KeyPair, World, create_key, fetch_key}
use key_bank.Server.Handlers.Keys.{
  reply_to, IsUnsent, saved_state, create_key_lem, fetch_key_answer,
}
use key_bank.Server.Middleware.{
  guarded, let_through, rate_limit, recovered, chain, chain_loop, panic_recover, security_headers,
  max_body_size, remote_ip,
}
use key_bank.Server.Routes.{
  Route, create, fetch, is_get, route, Server, handler_of, dynamic_handler, root_handler, app,
}
use key_bank.Server.System.{
  Incoming, answer, after, create_limited, fetch_limited, IsCreated, IsFetched, IsApart, on_wire,
}

-- The security headers write nothing yet.
guarded-IsUnsent : IsUnsent (guarded fresh)
unfolding set_header
guarded-IsUnsent = (refl, refl)

module _ (ks : KeyStore) (LimiterCall : Type 0) (server : Server ks LimiterCall) where
  abbrev Incomings : Type 0
  Incomings = Incoming ks LimiterCall server

  recovered_same :
      (o : Outcome ks.State) (s : ks.State) (a : Option ℕ × Bytes)
      → EndsWith o s a
      → EndsWith (recovered ks.State (World ks.Call LimiterCall) o) s a
  recovered_same (finished s' w) s a h = h
  recovered_same (panicked s' w) s a h = absurd h

  passed_same :
      (next : Handler ks.State (World ks.Call LimiterCall)) (world : World ks.Call LimiterCall)
      (w : Writer) (r : Request) (limited : ks.State × Bool) (s : ks.State) (a : Option ℕ × Bytes)
      → limited.1 ≡ true
      → EndsWith (next world limited.0 w r) s a
      → EndsWith
          (let_through ks.State (World ks.Call LimiterCall) server.addresses next world w r limited)
          s
          a
  passed_same next world w r (s', true) s a p h = h
  passed_same next world w r (s', false) s a p h = cc

  -- What the state and the answer are, from how the server ends.
  ends :
      (i : Incomings) (s s' : ks.State) (a : Option ℕ × Bytes)
      → EndsWith (app ks LimiterCall server i.0 s fresh i.1) s' a
      → (after ks LimiterCall server s i ≡ s')
        × (answer ks LimiterCall server s i ≡ on_wire ks LimiterCall server i.1.method a)
  unfolding after answer
  ends (world, r) s s' a h = go (app ks LimiterCall server world s fresh r) h
    where
      go :
          (o : Outcome ks.State)
          → EndsWith o s' a
          → (state_of o ≡ s')
            × (on_wire ks LimiterCall server r.method (answer_of o)
                ≡ on_wire ks LimiterCall server r.method a)
      go (finished s w) h = (h.0, ap (on_wire ks LimiterCall server r.method) h.1)
      go (panicked s w) h = absurd h

  dynamic_same :
      (to : Route) (i : Incomings) (s s' : ks.State) (a : Option ℕ × Bytes)
      → route i.1.method i.1.path ≡ to
      → ((w : Writer)
          → IsUnsent w
          → EndsWith (handler_of ks LimiterCall server to i.0 s w i.1) s' a)
      → (root_handler ks LimiterCall server to i.0 s fresh i.1
          ≡ dynamic_handler ks LimiterCall server to i.0 s fresh i.1)
      → (after ks LimiterCall server s i ≡ s')
        × (answer ks LimiterCall server s i ≡ on_wire ks LimiterCall server i.1.method a)
  unfolding app chain chain_loop panic_recover security_headers
  dynamic_same to (world, r) s s' a is_to h dynamic =
      ends (world, r) s s' a
        (subst (λ o. EndsWith o s' a)
          (sym (ap (λ to. root_handler ks LimiterCall server to world s fresh r) is_to ∙ dynamic))
          (recovered_same (handler_of ks LimiterCall server to world s (guarded fresh) r) s' a
            (h (guarded fresh) guarded-IsUnsent)))

  by_method :
      (i : Incomings) (s s' : ks.State) (a : Option ℕ × Bytes) (method : Text)
      → i.1.method ≡ method
      → (after ks LimiterCall server s i ≡ s')
        × (answer ks LimiterCall server s i ≡ on_wire ks LimiterCall server i.1.method a)
      → (after ks LimiterCall server s i ≡ s')
        × (answer ks LimiterCall server s i ≡ on_wire ks LimiterCall server method a)
  by_method i s s' a method by h = (h.0, h.1 ∙ ap (λ m. on_wire ks LimiterCall server m a) by)

  -- The pattern for a key.
  route_fetch :
      (method id : Text)
      → is_get method ≡ true
      → id ≢ []
      → route method (codes "api" ∷ codes "keys" ∷ id ∷ []) ≡ fetch id
  unfolding route text_eq codes
  route_fetch method [] gets named = absurd (named refl)
  route_fetch method (c ∷ id) gets named = rw gets refl

  route_create : route (codes "POST") (codes "api" ∷ codes "keys" ∷ []) ≡ create
  unfolding route text_eq codes
  route_create = refl

  fetched :
      (i : Incomings) (s : ks.State) (id : Text) (method : Text)
      (f : IsFetched ks LimiterCall server method s i id)
      → is_get method ≡ true
      → (after ks LimiterCall server s i
          ≡ (ks.load i.0.call i.0.now (fetch_limited ks LimiterCall server s i).0 id).0)
        × (answer ks LimiterCall server s i
            ≡ on_wire ks LimiterCall server method (reply_to f.found))
  unfolding rate_limit remote_ip
  fetched (world, r) s id method f gets =
      by_method (world, r) s _ _ method f.by
        (dynamic_same (fetch id) (world, r) s _ _
          (ap (λ m. route m r.path) f.by
            ∙ ap (route method) f.at
            ∙ route_fetch method id gets f.named)
          (λ w u.
            passed_same (fetch_key ks server.json LimiterCall server.handlers) world w
              (record r { id = id }) (fetch_limited ks LimiterCall server s (world, r)) _ _ f.passes
              (fetch_key_answer ks server.json LimiterCall server.handlers world _ w
                (record r { id = id }) f.found f.loaded u))
          refl)

  pub created :
      (i : Incomings) (s : ks.State) (ttl : ℕ) (keys : KeyPair) (id : Text) (body : Bytes)
      → IsCreated ks LimiterCall server s i ttl keys id body
      → (after ks LimiterCall server s i
          ≡ saved_state ks server.json LimiterCall server.handlers i.0
              (create_limited ks LimiterCall server s i).0
              ttl
              keys)
        × (answer ks LimiterCall server s i
            ≡ on_wire ks LimiterCall server (codes "POST") (some 201, body))
  unfolding rate_limit max_body_size chain chain_loop remote_ip
  created (world, r) s ttl keys id body c =
      by_method (world, r) s _ _ (codes "POST") c.by
        (dynamic_same create (world, r) s _ _
          (ap (λ m. route m r.path) c.by ∙ ap (route (codes "POST")) c.at ∙ route_create)
          (λ w u.
            passed_same (create_key ks server.json LimiterCall server.handlers) world w
              (record r { limit = some (64 * 1024) })
              (create_limited ks LimiterCall server s (world, r)) _ _ c.passes
              (create_key_lem ks server.json LimiterCall server.handlers world _ w
                (record r { limit = some (64 * 1024) }) ttl keys id body c.granted u))
          refl)

module _ (ks : KeyStore) (view : ks.State → ℕ → Text → Option Record)
    (MayUse : ks.Call → Text → Type 0) (IsStorable : Record → ℕ → Type 0)
    (IsSure : ks.Call → Type 0) (laws : IsKeyStore ks view MayUse IsStorable IsSure)
    (LimiterCall : Type 0) (server : Server ks LimiterCall) (id : Text)
    (apart : IsApart ks LimiterCall server view MayUse id) where
  module _ (method : Text) (gets : is_get method ≡ true) (i : Incoming ks LimiterCall server)
      (s : ks.State) (f : IsFetched ks LimiterCall server method s i id) where
    abbrev limited : ks.State
    limited = (fetch_limited ks LimiterCall server s i).0

    -- What a request for the ID sends.
    pub fetched_found :
        answer ks LimiterCall server s i ≡ on_wire ks LimiterCall server method (reply_to f.found)
    fetched_found = (fetched ks LimiterCall server i s id method f gets).1

    sent :
        (o : Option Record)
        → f.found ≡ o
        → answer ks LimiterCall server s i ≡ on_wire ks LimiterCall server method (reply_to o)
    sent o e = fetched_found ∙ ap (λ o. on_wire ks LimiterCall server method (reply_to o)) e

    -- It sends what is there, if no answer is lost.
    pub fetched_view :
        IsSure i.0.call
        → answer ks LimiterCall server s i
          ≡ on_wire ks LimiterCall server method (reply_to (view s i.0.now id))
    fetched_view sure = sent (view s i.0.now id) (
        laws.load_read i.0.call i.0.now limited id f.found sure f.loaded
        ∙ apart.fetch_limits i.0 s _ i.0.now)

    -- And nothing where nothing is.
    pub fetched_nothing :
        view s i.0.now id ≡ none
        → answer ks LimiterCall server s i ≡ on_wire ks LimiterCall server method (reply_to none)
    fetched_nothing empty = sent none (go f.found f.loaded)
      where
        clash : {rec : Record} → some rec ≡ none → ⊥
        clash e = cc

        go : (o : Option Record) → (ks.load i.0.call i.0.now limited id).1 ≡ gives o → o ≡ none
        go none e = refl
        go (some rec) e = absurd (
            clash (
              sym (laws.load_found i.0.call i.0.now limited id rec e)
              ∙ apart.fetch_limits i.0 s _ i.0.now
              ∙ empty))

    -- It leaves nothing.
    pub fetched_gone : (t : ℕ) → view (after ks LimiterCall server s i) t id ≡ none
    fetched_gone t =
        ap (λ m. view m t id) (fetched ks LimiterCall server i s id method f gets).0
        ∙ laws.load_gone i.0.call i.0.now limited id f.found t f.loaded
