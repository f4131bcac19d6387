-- ===== src/Server/System/Others.antt =====
-- What the other requests leave of a key.
use key_bank.Base.{
  ℕ, ◌≡◌, ◌≢◌, ◌*◌, ◌∙◌, refl, ap, Bool, true, false, List, [], ◌∷◌, Option, some, Text, codes, All,
  if◌then◌else◌,
}
use key_bank.Server.Store.{Record, KeyStore}
use key_bank.Server.Store.Contract.{IsKeyStore}
use key_bank.Server.Http.{Request, Writer, fresh, Handler, Outcome, finished, panicked, state_of}
use key_bank.Server.Handlers.{World, create_key, fetch_key, home_page, share_page, not_found_page}
use key_bank.Server.Handlers.Keys.{create_key_state, fetch_key_state}
use key_bank.Server.Middleware.{
  with_frame, with_transport, guarded, let_through, rate_limit, recovered, chain, chain_loop,
  panic_recover, security_headers, static_headers, max_body_size, remote_ip,
}
use key_bank.Server.Routes.{
  Route, create, home, unknown, wrong_method, static_files, static_redirect, fetch, share, is_get,
  route, Server, handler_of, method_not_allowed, dynamic_handler, static_mux, static_handler,
  root_handler, app,
}
use key_bank.Server.System.{Incoming, after, after_all, IsAloof, IsApart, IsOther}

module _ (ks : KeyStore) (view : ks.State → ℕ → Text → Option Record)
    (MayUse : ks.Call → Text → Type 0) (IsStorable : Record → ℕ → Type 0)
    (IsSure : ks.Call → Type 0) (laws : IsKeyStore ks view MayUse IsStorable IsSure)
    (LimiterCall : Type 0) (server : Server ks LimiterCall) (id : Text)
    (apart : IsApart ks LimiterCall server view MayUse id) where
  abbrev W : Type 0
  W = World ks.Call LimiterCall

  abbrev Kept : ks.State → ks.State → Type 0
  Kept s s' = (t : ℕ) → view s' t id ≡ view s t id

  limited-Kept :
      (allow : W → ks.State → Text → ks.State × Bool) (next : Handler ks.State W) (world : W)
      (s : ks.State) (w : Writer) (r : Request)
      → IsAloof ks LimiterCall server view MayUse id allow
      → ((s' : ks.State) → Kept s' (state_of (next world s' w r)))
      → Kept s (
          state_of (rate_limit ks.State W server.addresses allow server.trust_xff next world s w r))
  limited-Kept allow next world s w r aloof k =
      unfold rate_limit in
      go (allow world s (remote_ip server.addresses server.trust_xff r))
        (aloof world s (remote_ip server.addresses server.trust_xff r))
    where
      go :
          (a : ks.State × Bool)
          → Kept s a.0
          → Kept s (state_of (let_through ks.State W server.addresses next world w r a))
      go (s', true) h = λ t. k s' t ∙ h t
      go (s', false) h = h

  recovered-Kept :
      (s : ks.State) (o : Outcome ks.State)
      → Kept s (state_of o)
      → Kept s (state_of (recovered ks.State W o))
  recovered-Kept s (finished s' w) k = k
  recovered-Kept s (panicked s' w) k = k

  handler-Kept :
      (to : Route) (world : W) (s : ks.State) (w : Writer) (r : Request)
      → to ≢ fetch id
      → (MayUse world.call id → ⊥)
      → Kept s (state_of (handler_of ks LimiterCall server to world s w r))
  unfolding chain chain_loop max_body_size home_page share_page not_found_page
  handler-Kept create world s w r ne unused =
      limited-Kept server.allow_create (create_key ks server.json LimiterCall server.handlers) world
        s w (record r { limit = some (64 * 1024) }) apart.create_limits
        (λ s'.
          create_key_state ks server.json LimiterCall server.handlers world s' (Kept s') (λ t. refl)
            (λ rec ttl t. laws.save_other world.call world.now s' rec ttl id t unused) w
            (record r { limit = some (64 * 1024) }))
  handler-Kept (fetch k) world s w r ne unused =
      limited-Kept server.allow_fetch (fetch_key ks server.json LimiterCall server.handlers) world s
        w (record r { id = k }) apart.fetch_limits
        (λ s' t.
          ap (λ m. view m t id)
            (fetch_key_state ks server.json LimiterCall server.handlers world s' w
              (record r { id = k }))
          ∙ laws.load_other world.call world.now s' k id t (λ q. ne (ap fetch q)))
  handler-Kept home world s w r ne unused = λ t. refl
  handler-Kept (share k) world s w r ne unused = λ t. refl
  handler-Kept unknown world s w r ne unused = λ t. refl
  handler-Kept wrong_method world s w r ne unused = λ t. refl
  handler-Kept static_files world s w r ne unused = λ t. refl
  handler-Kept static_redirect world s w r ne unused = λ t. refl

  dynamic-Kept :
      (to : Route) (world : W) (s : ks.State) (w : Writer) (r : Request)
      → to ≢ fetch id
      → (MayUse world.call id → ⊥)
      → Kept s (state_of (dynamic_handler ks LimiterCall server to world s w r))
  unfolding chain chain_loop panic_recover security_headers
  dynamic-Kept to world s w r ne unused =
      recovered-Kept s (handler_of ks LimiterCall server to world s (guarded w) r)
        (handler-Kept to world s (guarded w) r ne unused)

  static-Kept :
      (world : W) (s : ks.State) (w : Writer) (r : Request)
      → Kept s (state_of (static_handler ks LimiterCall server world s w r))
  unfolding chain chain_loop panic_recover static_headers
  static-Kept world s w r =
      recovered-Kept s (static_mux ks LimiterCall server world s (with_frame (with_transport w)) r)
        (go (is_get r.method) (with_frame (with_transport w)))
    where
      go :
          (b : Bool) (w : Writer)
          → Kept s (
              state_of (
                if b
                then server.files world s w r
                else method_not_allowed ks LimiterCall server world s w r))
      go true w = λ t. apart.files_still (world, r) s w t
      go false w = λ t. refl

  root-Kept :
      (to : Route) (world : W) (s : ks.State) (w : Writer) (r : Request)
      → to ≢ fetch id
      → (MayUse world.call id → ⊥)
      → Kept s (state_of (root_handler ks LimiterCall server to world s w r))
  root-Kept static_files world s w r ne unused = static-Kept world s w r
  root-Kept static_redirect world s w r ne unused =
      λ t. apart.redirect_still (codes "/static/") (world, r) s w t
  root-Kept create world s w r ne unused = dynamic-Kept create world s w r ne unused
  root-Kept (fetch k) world s w r ne unused = dynamic-Kept (fetch k) world s w r ne unused
  root-Kept home world s w r ne unused = dynamic-Kept home world s w r ne unused
  root-Kept (share k) world s w r ne unused = dynamic-Kept (share k) world s w r ne unused
  root-Kept unknown world s w r ne unused = dynamic-Kept unknown world s w r ne unused
  root-Kept wrong_method world s w r ne unused = dynamic-Kept wrong_method world s w r ne unused

  pub other-Kept :
      (s : ks.State) (i : Incoming ks LimiterCall server)
      → IsOther ks LimiterCall server view MayUse id i
      → Kept s (after ks LimiterCall server s i)
  unfolding after app
  other-Kept s (world, r) (ne, unused) = root-Kept (route r.method r.path) world s fresh r ne unused

  pub others-Kept :
      (is : List (Incoming ks LimiterCall server)) (s : ks.State)
      → All (IsOther ks LimiterCall server view MayUse id) is
      → Kept s (after_all ks LimiterCall server s is)
  unfolding after_all
  others-Kept [] s a = λ t. refl
  others-Kept (i ∷ is) s (o, a) =
      λ t. others-Kept is (after ks LimiterCall server s i) a t ∙ other-Kept s i o t
