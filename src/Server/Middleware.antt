-- ===== src/Server/Middleware.antt =====
-- handlers/middleware.go: what stands between a request and its handler.
pub mod Order
use key_bank.Base.{
  ℕ, zero, suc, Bool, true, false, ◌||◌, ◌&&◌, not, List, [], ◌∷◌, ◌++◌, Option, none, some, Text,
  codes, length, leb, ◌==◌, if◌then◌else◌,
}
use key_bank.Server.Http.{
  Request, Writer, set_header, http_error, Outcome, finished, panicked, Handler,
}

-- Package net: the host of an address with a port, and what an address is.
pub record Addresses : Type 0 where
  pub split_host_port : Text → Option Text
  pub is_loopback_ip : Text → Bool
  pub is_private_ip : Text → Bool

abbrev pub security_policy : Text
security_policy =
    codes
      "default-src 'self'; script-src 'self'; object-src 'none'; base-uri 'none'; form-action 'self'"

abbrev pub with_transport : Writer → Writer
with_transport w = set_header (codes "Referrer-Policy") (codes "no-referrer") (
    set_header (codes "Content-Security-Policy") security_policy (
      set_header (codes "Strict-Transport-Security") (codes "max-age=15552000; includeSubDomains")
        w))

abbrev pub with_frame : Writer → Writer
with_frame w =
    set_header (codes "X-Content-Type-Options") (codes "nosniff")
      (set_header (codes "X-Frame-Options") (codes "DENY") w)

abbrev pub guarded : Writer → Writer
guarded w = with_frame (set_header (codes "Cache-Control") (codes "no-store") (with_transport w))

-- `strings.TrimSpace` for ASCII
abbrev pub is_space : ℕ → Bool
is_space c = (leb 9 c && leb c 13) || c == 32

abbrev pub trim_left : Text → Text
trim_left [] = []
trim_left (c ∷ t) = let rest = trim_left t in if is_space c then rest else c ∷ t

abbrev pub put_unless_blank : ℕ → Text → Text
put_unless_blank c [] = if is_space c then [] else c ∷ []
put_unless_blank c (d ∷ t) = c ∷ d ∷ t

abbrev pub trim_right : Text → Text
trim_right [] = []
trim_right (c ∷ t) = put_unless_blank c (trim_right t)

-- `strings.Split(xff, ",")[0]`
abbrev pub before_comma : Text → Text
before_comma [] = []
before_comma (c ∷ t) = let rest = before_comma t in if c == b',' then [] else c ∷ rest

module _ (addresses : Addresses) where
  abbrev pub is_trusted_proxy : Text → Bool
  is_trusted_proxy address = addresses.is_loopback_ip address || addresses.is_private_ip address

  abbrev pub host_of : Option Text → Text → Text
  host_of none remote_addr = remote_addr
  host_of (some host) remote_addr = host

  abbrev pub forwarded_ip : Text → Text → Text
  forwarded_ip direct [] = direct
  forwarded_ip direct (c ∷ first) = c ∷ first

  abbrev pub client_ip : Text → Text → Text
  client_ip direct forwarded = forwarded_ip direct (trim_right (trim_left (before_comma forwarded)))

  -- An empty header has no first address either.
  unfoldable pub remote_ip : Bool → Request → Text
  remote_ip trust_xff r =
      let direct = host_of (addresses.split_host_port r.remote_addr) r.remote_addr in
      if trust_xff && is_trusted_proxy direct then client_ip direct r.forwarded else direct

module _ (S W : Type 0) where
  abbrev pub Middleware : Type 0
  Middleware = Handler S W → Handler S W

  abbrev pub apply_at : ℕ → List Middleware → Middleware
  apply_at i [] next = next
  apply_at zero (m ∷ mw) next = m next
  apply_at (suc i) (m ∷ mw) next = apply_at i mw next

  -- The loop of `Chain`: the last middleware is put around the handler first.
  unfoldable pub chain_loop : ℕ → List Middleware → Middleware
  chain_loop zero mw next = next
  chain_loop (suc i) mw next = chain_loop i mw (apply_at i mw next)

  unfoldable pub chain : List Middleware → Middleware
  unfolding chain_loop
  chain mw = chain_loop (length mw) mw

  abbrev pub recovered : Outcome S → Outcome S
  recovered (finished s w) = finished s w
  recovered (panicked s w) = finished s (http_error (codes "internal server error") 500 w)

  unfoldable pub panic_recover : Middleware
  panic_recover next world s w r = recovered (next world s w r)

  unfoldable pub security_headers : Middleware
  security_headers next world s w r = next world s (guarded w) r

  unfoldable pub static_headers : Middleware
  static_headers next world s w r = next world s (with_frame (with_transport w)) r

  unfoldable pub max_body_size : ℕ → Middleware
  max_body_size limit next world s w r = next world s w (record r { limit = some limit })

  module _ (addresses : Addresses) where
    abbrev pub let_through : Handler S W → W → Writer → Request → S × Bool → Outcome S
    let_through next world w r (s, true) = next world s w r
    let_through next world w r (s, false) =
        finished s (http_error (codes "too many requests") 429 w)

    -- `allow` is that of a `RateLimiter`.
    unfoldable pub rate_limit : (W → S → Text → S × Bool) → Bool → Middleware
    rate_limit allow trust_xff next world s w r =
        let_through next world w r (allow world s (remote_ip addresses trust_xff r))
