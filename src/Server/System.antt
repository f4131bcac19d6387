-- ===== src/Server/System.antt =====
-- server.go: the server as a whole, which takes the requests of all clients in the order in which the
-- store serves them.
pub mod Others
pub mod Steps
pub mod Probe
pub mod Exchange
pub mod Browser
use key_bank.Base.{
  if◌then◌else◌, codes, ℕ, ◌≡◌, ◌≢◌, ◌*◌, Bool, true, false, List, [], ◌∷◌, Option, none, some,
  Text, Bytes,
}
use key_bank.Js.Url.{text_eq}
use key_bank.Server.Go.{Try, fails, gives}
use key_bank.Server.Store.{Record, KeyStore}
use key_bank.Server.Http.{
  Request, Writer, fresh, Handler, Outcome, finished, panicked, state_of, answer_of,
}
use key_bank.Server.Handlers.{KeyPair, World}
use key_bank.Server.Handlers.Keys.{IsGranted}
use key_bank.Server.Middleware.{remote_ip}
use key_bank.Server.Routes.{Route, create, fetch, route, Server, app}

module _ (ks : KeyStore) (LimiterCall : Type 0) (server : Server ks LimiterCall) where
  -- A request, with what the world adds to it.
  abbrev pub Incoming : Type 0
  Incoming = World ks.Call LimiterCall × Request

  -- What the client gets; net/http sends no body in answer to HEAD.
  abbrev pub on_wire : Text → Option ℕ × Bytes → Option ℕ × Bytes
  on_wire method (status, body) = (status, if text_eq method (codes "HEAD") then [] else body)

  unfoldable pub answer : ks.State → Incoming → Option ℕ × Bytes
  answer s (world, r) = on_wire r.method (answer_of (app ks LimiterCall server world s fresh r))

  unfoldable pub after : ks.State → Incoming → ks.State
  after s (world, r) = state_of (app ks LimiterCall server world s fresh r)

  unfoldable pub after_all : ks.State → List Incoming → ks.State
  unfolding after
  after_all s [] = s
  after_all s (i ∷ is) = after_all (after s i) is

  -- What the limiters say of a request.
  abbrev pub create_limited : ks.State → Incoming → ks.State × Bool
  create_limited s (world, r) =
      server.allow_create world s (remote_ip server.addresses server.trust_xff r)

  abbrev pub fetch_limited : ks.State → Incoming → ks.State × Bool
  fetch_limited s (world, r) =
      server.allow_fetch world s (remote_ip server.addresses server.trust_xff r)

  -- A request to `/api/keys` that passes its limiter and is granted.
  pub record IsCreated (s : ks.State) (i : Incoming) (ttl : ℕ) (keys : KeyPair) (id : Text)
      (body : Bytes) : Type 0 where
    pub by : i.1.method ≡ codes "POST"
    pub at : i.1.path ≡ codes "api" ∷ codes "keys" ∷ []
    pub passes : (create_limited s i).1 ≡ true
    pub granted :
        IsGranted ks server.json LimiterCall server.handlers i.0
          (create_limited s i).0
          (record i.1 { limit = some (64 * 1024) })
          ttl
          keys
          id
          body

  -- A request by that method to `/api/keys/` with that ID that passes its limiter, and whose load is answered.
  pub record IsFetched (method : Text) (s : ks.State) (i : Incoming) (id : Text) : Type 0 where
    pub by : i.1.method ≡ method
    pub at : i.1.path ≡ codes "api" ∷ codes "keys" ∷ id ∷ []
    pub named : id ≢ []
    pub passes : (fetch_limited s i).1 ≡ true
    pub found : Option Record
    pub loaded : (ks.load i.0.call i.0.now (fetch_limited s i).0 id).1 ≡ gives found

  module _ (view : ks.State → ℕ → Text → Option Record) (MayUse : ks.Call → Text → Type 0)
      (id : Text) where
    -- What else the server is made of does not touch the key of the ID.
    abbrev pub IsAloof : (World ks.Call LimiterCall → ks.State → Text → ks.State × Bool) → Type 0
    IsAloof allow =
        (world : World ks.Call LimiterCall) (s : ks.State) (ip : Text) (t : ℕ)
        → view (allow world s ip).0 t id ≡ view s t id

    abbrev pub IsStill : Handler ks.State (World ks.Call LimiterCall) → Type 0
    IsStill handler =
        (i : Incoming) (s : ks.State) (w : Writer) (t : ℕ)
        → view (state_of (handler i.0 s w i.1)) t id ≡ view s t id

    pub record IsApart : Type 0 where
      pub create_limits : IsAloof server.allow_create
      pub fetch_limits : IsAloof server.allow_fetch
      pub files_still : IsStill server.files
      pub redirect_still : (to : Text) → IsStill (server.redirect to)

    -- A request that neither asks for the ID nor may store under it.
    abbrev pub IsOther : Incoming → Type 0
    IsOther (world, r) = (route r.method r.path ≢ fetch id) × (MayUse world.call id → ⊥)
