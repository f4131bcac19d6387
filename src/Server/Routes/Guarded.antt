-- ===== src/Server/Routes/Guarded.antt =====
-- server.go: the security headers of the dynamic routes.
use key_bank.Base.{ℕ, ◌*◌, refl, Bool, true, false, Option, none, some, Text, codes, Bytes}
use key_bank.Js.Url.{text_eq}
use key_bank.Server.Go.{Try, fails, gives, pos}
use key_bank.Server.Table.{find, put, erase}
use key_bank.Server.Http.{Request, Writer, fresh, set_header, Outcome, finished, panicked, Handler}
use key_bank.Server.Store.{KeyStore, adapter_save, adapter_load}
use key_bank.Server.Handlers.{
  Handlers, Json, KeyPair, PageData, World, Decoded, end_of_body, malformed, too_large, null,
  crashes, request, nothing_more, something_more, too_much_more, write_json_error, chosen_ttl,
  key_written, key_saved, key_generated, create_with, create_decoded, create_key, key_loaded,
  fetch_key, page_written, status_of, rendered, render_page, home_page, not_found_page, share_page,
}
use key_bank.Server.Middleware.{
  chain, chain_loop, recovered, panic_recover, with_transport, with_frame, security_headers,
  max_body_size, remote_ip, let_through, rate_limit,
}
use key_bank.Server.Routes.{
  Route, create, home, unknown, wrong_method, static_files, static_redirect, fetch, share, Server,
  create_handler, fetch_handler, handler_of, dynamic_handler,
}
use key_bank.Server.Routes.Headers.{
  IsGuarded, EndsGuarded, content_type-IsGuarded, write_header-IsGuarded, write-IsGuarded,
  http_error-IsGuarded,
}

-- The handler leaves the headers that are there.
abbrev pub Keeps : {S W : Type 0} → Handler S W → Type 0
Keeps {S} {W} next =
    (world : W) (s : S) (w : Writer) (r : Request) → IsGuarded w → EndsGuarded (next world s w r)

json_error-IsGuarded :
    (status : ℕ) (code : Text) (w : Writer)
    → IsGuarded w
    → IsGuarded (write_json_error status code w)
json_error-IsGuarded status code w g =
    write-IsGuarded _ _
      (write_header-IsGuarded status _ (content_type-IsGuarded (codes "application/json") w g))

module _ (ks : KeyStore) (json : Json) (LimiterCall : Type 0) (h : Handlers) where
  abbrev Ends : Outcome ks.State → Type 0
  Ends = EndsGuarded

  key_written-Ends :
      (s : ks.State) (w : Writer) (b : Try Bytes)
      → IsGuarded w
      → Ends (key_written ks json LimiterCall h s w b)
  key_written-Ends s w fails g = http_error-IsGuarded _ 500 w g
  key_written-Ends s w (gives b) g =
      write-IsGuarded b _
        (write_header-IsGuarded 201 _ (content_type-IsGuarded (codes "application/json") w g))

  key_saved-Ends :
      (w : Writer) (keys : KeyPair) (r : ks.State × Try Text)
      → IsGuarded w
      → Ends (key_saved ks json LimiterCall h w keys r)
  key_saved-Ends w keys (s, fails) g = http_error-IsGuarded _ 500 w g
  key_saved-Ends w keys (s, gives id) g =
      key_written-Ends s w (json.key_response id keys.public_pem) g

  create_with-Ends :
      (world : World ks.Call LimiterCall) (s : ks.State) (w : Writer) (o : Option ℕ)
      → IsGuarded w
      → Ends (create_with ks json LimiterCall h world s w o)
  create_with-Ends world s w none g = json_error-IsGuarded 400 _ w g
  create_with-Ends world s w (some ttl) g = go world.keys
    where
      go : (k : Try KeyPair) → Ends (key_generated ks json LimiterCall h world s w ttl k)
      go fails = http_error-IsGuarded _ 500 w g
      go (gives keys) =
          key_saved-Ends w keys (adapter_save ks world.call world.now s keys.private_pem ttl) g

  create_key-Keeps : Keeps (create_key ks json LimiterCall h)
  create_key-Keeps world s w r g = unfold create_key in go (json.decode r.body r.limit)
    where
      go : (d : Decoded) → Ends (create_decoded ks json LimiterCall h world s w d)
      go end_of_body = create_with-Ends world s w (chosen_ttl h.max_ttl (pos 0)) g
      go malformed = json_error-IsGuarded 400 _ w g
      go too_large = json_error-IsGuarded 413 _ w g
      go null = json_error-IsGuarded 400 _ w g
      go crashes = g
      go (request ttl nothing_more) = create_with-Ends world s w (chosen_ttl h.max_ttl ttl) g
      go (request ttl something_more) = json_error-IsGuarded 400 _ w g
      go (request ttl too_much_more) = json_error-IsGuarded 413 _ w g

  fetch_key-Keeps : Keeps (fetch_key ks json LimiterCall h)
  fetch_key-Keeps world s w r g =
      unfold fetch_key in go (adapter_load ks world.call world.now s r.id)
    where
      go : (a : ks.State × Try (Option Bytes)) → Ends (key_loaded ks json LimiterCall h w a)
      go (s, fails) = http_error-IsGuarded _ 500 w g
      go (s, gives none) = http_error-IsGuarded _ 404 w g
      go (s, gives (some key)) = write-IsGuarded key _ (write_header-IsGuarded 200 w g)

  render_page-IsGuarded :
      (page : PageData) (w : Writer)
      → IsGuarded w
      → IsGuarded (render_page ks json LimiterCall h page w)
  render_page-IsGuarded page w g = unfold render_page in go h.templates
    where
      written : (b : Try Bytes) → IsGuarded (page_written ks json LimiterCall h page w b)
      written fails = http_error-IsGuarded _ 500 w g
      written (gives b) = write-IsGuarded b _ (
          write_header-IsGuarded (status_of ks json LimiterCall h page.status_code) _
            (content_type-IsGuarded (codes "text/html; charset=utf-8") w g))

      go : (t : Option (PageData → Try Bytes)) → IsGuarded (rendered ks json LimiterCall h t page w)
      go none = http_error-IsGuarded _ 500 w g
      go (some execute) = written (execute page)

  home_page-Keeps : Keeps (home_page ks json LimiterCall h)
  home_page-Keeps world s w r g = unfold home_page in render_page-IsGuarded _ w g

  not_found_page-Keeps : Keeps (not_found_page ks json LimiterCall h)
  not_found_page-Keeps world s w r g = unfold not_found_page in render_page-IsGuarded _ w g

  share_page-Keeps : Keeps (share_page ks json LimiterCall h)
  share_page-Keeps world s w r g = unfold share_page in render_page-IsGuarded _ w g

module _ (ks : KeyStore) (LimiterCall : Type 0) (server : Server ks LimiterCall) where
  abbrev S : Type 0
  S = ks.State

  abbrev W : Type 0
  W = World ks.Call LimiterCall

  rate_limit-Keeps :
      (allow : W → S → Text → S × Bool) (next : Handler S W)
      → Keeps next
      → Keeps (rate_limit S W server.addresses allow server.trust_xff next)
  rate_limit-Keeps allow next k world s w r g =
      unfold rate_limit in go (allow world s (remote_ip server.addresses server.trust_xff r))
    where
      go : (a : S × Bool) → EndsGuarded (let_through S W server.addresses next world w r a)
      go (s, true) = k world s w r g
      go (s, false) = http_error-IsGuarded _ 429 w g

  create_handler-Keeps : Keeps (create_handler ks LimiterCall server)
  unfolding chain chain_loop max_body_size
  create_handler-Keeps world s w r g =
      rate_limit-Keeps server.allow_create _
        (create_key-Keeps ks server.json LimiterCall server.handlers) world s w
        (record r { limit = some (64 * 1024) }) g

  fetch_handler-Keeps : Keeps (fetch_handler ks LimiterCall server)
  fetch_handler-Keeps =
      rate_limit-Keeps server.allow_fetch _
        (fetch_key-Keeps ks server.json LimiterCall server.handlers)

  handler_of-Keeps : (to : Route) → Keeps (handler_of ks LimiterCall server to)
  handler_of-Keeps create = create_handler-Keeps
  handler_of-Keeps home = home_page-Keeps ks server.json LimiterCall server.handlers
  handler_of-Keeps unknown = not_found_page-Keeps ks server.json LimiterCall server.handlers
  handler_of-Keeps wrong_method = λ world s w r g. http_error-IsGuarded _ 405 w g
  handler_of-Keeps static_files = λ world s w r g. http_error-IsGuarded _ 405 w g
  handler_of-Keeps static_redirect = λ world s w r g. http_error-IsGuarded _ 405 w g
  handler_of-Keeps (fetch id) =
      λ world s w r g. fetch_handler-Keeps world s w (record r { id = id }) g
  handler_of-Keeps (share id) = λ world s w r g.
      share_page-Keeps ks server.json LimiterCall server.handlers world s w (record r { id = id }) g

  with_headers-IsGuarded :
      IsGuarded
        (with_frame (set_header (codes "Cache-Control") (codes "no-store") (with_transport fresh)))
  unfolding set_header find put erase text_eq codes
  with_headers-IsGuarded = record {
    now = record {
      transport = refl;
      policy = refl;
      referrer = refl;
      cache = refl;
      frame = refl;
      sniff = refl;
    };
    then_on = tt;
  }

  -- An answer, with the headers in place.
  abbrev pub IsAnswered : Outcome S → Type 0
  IsAnswered (finished s w) = IsGuarded w
  IsAnswered (panicked s w) = ⊥

  recovered-IsAnswered : (o : Outcome S) → EndsGuarded o → IsAnswered (recovered S W o)
  recovered-IsAnswered (finished s w) g = g
  recovered-IsAnswered (panicked s w) g = http_error-IsGuarded _ 500 w g

  -- On every dynamic route, for every request and whatever the store and the limiters do, and even if
  -- the decoder of a body panics, there is an answer, and it forbids caching, framing, sniffing, foreign scripts and referrers.
  pub dynamic_handler-IsAnswered :
      (to : Route) (world : W) (s : S) (r : Request)
      → IsAnswered (dynamic_handler ks LimiterCall server to world s fresh r)
  unfolding chain chain_loop panic_recover security_headers
  dynamic_handler-IsAnswered to world s r =
      recovered-IsAnswered _ (handler_of-Keeps to world s _ r with_headers-IsGuarded)
