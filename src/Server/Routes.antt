-- ===== src/Server/Routes.antt =====
-- server.go: which handler answers which request.
pub mod Headers
pub mod Guarded
use key_bank.Base.{
  ℕ, Bool, true, false, ◌||◌, List, [], ◌∷◌, ◌++◌, Option, none, some, Text, codes, if◌then◌else◌,
  ◌*◌,
}
use key_bank.Js.Url.{text_eq}
use key_bank.Server.Http.{
  Request, Writer, set_header, http_error, Outcome, finished, panicked, Handler,
}
use key_bank.Server.Store.{KeyStore}
use key_bank.Server.Handlers.{
  Handlers, Json, World, create_key, fetch_key, home_page, share_page, not_found_page,
}
use key_bank.Server.Middleware.{
  Addresses, Middleware, chain, panic_recover, security_headers, static_headers, max_body_size,
  rate_limit,
}

-- What the patterns of the three `ServeMux` come to.
pub data Route : Type 0 where
  create home unknown wrong_method static_files static_redirect : Route
  fetch share : Text → Route

-- A pattern for GET matches HEAD, too.
abbrev pub is_get : Text → Bool
is_get method = text_eq method (codes "GET") || text_eq method (codes "HEAD")

abbrev pub is_post : Text → Bool
is_post method = text_eq method (codes "POST")

-- `GET /`, the pattern for what no other matches.
abbrev pub otherwise : Bool → Route
otherwise true = unknown
otherwise false = wrong_method

abbrev pub if_get : Bool → Route → Route
if_get true route = route
if_get false route = wrong_method

-- `{id}` matches one segment, which is not empty.
abbrev pub under_keys : Bool → Text → Route
under_keys get [] = otherwise get
under_keys get (c ∷ id) = if_get get (fetch (c ∷ id))

abbrev pub under_share : Bool → Text → Route
under_share get [] = otherwise get
under_share get (c ∷ id) = if_get get (share (c ∷ id))

abbrev pub one_segment : Bool → Text → Route
one_segment get [] = if_get get home
one_segment get (c ∷ t) =
    if text_eq (c ∷ t) (codes "static") then static_redirect else otherwise get

abbrev pub two_segments : Text → Text → Text → Route
two_segments method a b =
    if text_eq a (codes "static")
    then static_files
    else if text_eq a (codes "share")
    then under_share (is_get method) b
    else if text_eq a (codes "api")
    then (if text_eq b (codes "keys")
        then (if is_post method then create else otherwise (is_get method))
        else otherwise (is_get method))
    else otherwise (is_get method)

abbrev pub three_segments : Text → Text → Text → Text → Route
three_segments method a b c =
    if text_eq a (codes "static")
    then static_files
    else if text_eq a (codes "api")
    then (if text_eq b (codes "keys")
        then under_keys (is_get method) c
        else otherwise (is_get method))
    else otherwise (is_get method)

-- For a path in its clean form; `ServeMux` redirects any other to that.
unfoldable pub route : Text → List Text → Route
route method [] = otherwise (is_get method)
route method (a ∷ []) = one_segment (is_get method) a
route method (a ∷ b ∷ []) = two_segments method a b
route method (a ∷ b ∷ c ∷ []) = three_segments method a b c
route method (a ∷ b ∷ c ∷ d ∷ path) =
    if text_eq a (codes "static") then static_files else otherwise (is_get method)

-- `allow_create` and `allow_fetch` are the limiters, `files` the file server
-- below `/static/`, and `redirect` the answer that sends a client on.
pub record Server (ks : KeyStore) (LimiterCall : Type 0) : Type 0 where
  pub json : Json
  pub handlers : Handlers
  pub addresses : Addresses
  pub trust_xff : Bool
  pub allow_create : World ks.Call LimiterCall → ks.State → Text → ks.State × Bool
  pub allow_fetch : World ks.Call LimiterCall → ks.State → Text → ks.State × Bool
  pub redirect : Text → Handler ks.State (World ks.Call LimiterCall)
  pub files : Handler ks.State (World ks.Call LimiterCall)

module _ (ks : KeyStore) (LimiterCall : Type 0) (server : Server ks LimiterCall) where
  open server use {json, handlers, addresses, trust_xff, allow_create, allow_fetch, redirect, files}

  abbrev pub Served : Type 0
  Served = Handler ks.State (World ks.Call LimiterCall)

  abbrev pub create_handler : Served
  create_handler =
      chain ks.State (World ks.Call LimiterCall)
        (max_body_size ks.State (World ks.Call LimiterCall) (64 * 1024)
          ∷ rate_limit ks.State (World ks.Call LimiterCall) addresses allow_create trust_xff
          ∷ [])
        (create_key ks json LimiterCall handlers)

  abbrev pub fetch_handler : Served
  fetch_handler =
      rate_limit ks.State (World ks.Call LimiterCall) addresses allow_fetch trust_xff
        (fetch_key ks json LimiterCall handlers)

  abbrev pub method_not_allowed : Served
  method_not_allowed world s w r = finished s (http_error (codes "Method Not Allowed") 405 w)

  abbrev pub handler_of : Route → Served
  handler_of create = create_handler
  handler_of (fetch id) = λ world s w r. fetch_handler world s w (record r { id = id })
  handler_of home = home_page ks json LimiterCall handlers
  handler_of (share id) =
      λ world s w r. share_page ks json LimiterCall handlers world s w (record r { id = id })
  handler_of unknown = not_found_page ks json LimiterCall handlers
  handler_of _ = method_not_allowed

  abbrev pub dynamic_handler : Route → Served
  dynamic_handler to =
      chain ks.State (World ks.Call LimiterCall)
        (panic_recover ks.State (World ks.Call LimiterCall)
          ∷ security_headers ks.State (World ks.Call LimiterCall)
          ∷ [])
        (handler_of to)

  abbrev pub static_mux : Served
  static_mux world s w r =
      if is_get r.method then files world s w r else method_not_allowed world s w r

  abbrev pub static_handler : Served
  static_handler =
      chain ks.State (World ks.Call LimiterCall)
        (panic_recover ks.State (World ks.Call LimiterCall)
          ∷ static_headers ks.State (World ks.Call LimiterCall)
          ∷ [])
        static_mux

  abbrev pub root_handler : Route → Served
  root_handler static_files = static_handler
  root_handler static_redirect = redirect (codes "/static/")
  root_handler to = dynamic_handler to

  -- `newAppHandler`
  unfoldable pub app : Served
  unfolding route
  app world s w r = root_handler (route r.method r.path) world s w r
