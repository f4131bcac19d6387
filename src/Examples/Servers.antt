-- ===== src/Examples/Servers.antt =====
-- Examples of the server: an exchange with the store in memory.
use key_bank.Base.{
  ℕ, ◌*◌, ◌≤◌, ◌≡◌, refl, false, List, [], ◌∷◌, ◌++◌, Option, none, some, Text, Bytes, codes,
}
use key_bank.Js.Url.{text_eq}
use key_bank.Server.Go.{gives, pos, hex}
use key_bank.Server.Table.{Table, find, erase, put}
use key_bank.Server.Store.{MemEntry, mem_save, mem_load, mem_key_store}
use key_bank.Server.Store.Contract.{Op, loads, saves}
use key_bank.Server.Store.Once.{deliveries}
use key_bank.Server.Store.Deliveries.{mem_deliveries-le-one}
use key_bank.Server.Store.Memory.{mem_view, MemMayUse, AnyRecord, AnyCall, mem_key_store-IsKeyStore}
use key_bank.Server.Http.{Request, fresh, finished}
use key_bank.Server.Handlers.{
  new_handlers, KeyPair, Json, World, crashes, request, nothing_more, chosen_ttl,
}
use key_bank.Server.Middleware.{chain, security_headers, max_body_size}
use key_bank.Server.Middleware.Order.{nested, chain-nested}
use key_bank.Server.Limiter.{allow_all}
use key_bank.Server.Routes.{dynamic_handler, create, fetch, home, route, Server}
use key_bank.Server.Routes.Guarded.{IsAnswered, dynamic_handler-IsAnswered}
use key_bank.Server.System.Probe.{answer-head}
use key_bank.Server.System.{
  after, after_all, answer, Incoming, IsCreated, IsFetched, IsApart, IsOther,
}

abbrev pub json : Json
json = record {
  decode = λ body limit. request (pos 3600) nothing_more;
  key_response = λ id pem. gives (id ++ pem);
}

abbrev World1 : Type 0
World1 = World (Option Bytes) (Unit {0})

abbrev pub server : Server mem_key_store (Unit {0})
server = record {
  json = json;
  handlers = new_handlers none;
  addresses = record {
    split_host_port = λ t. none;
    is_loopback_ip = λ t. false;
    is_private_ip = λ t. false;
  };
  trust_xff = false;
  allow_create = λ world s ip. allow_all s ip;
  allow_fetch = λ world s ip. allow_all s ip;
  redirect = λ to world s w r. finished s w;
  files = λ world s w r. finished s w;
}

abbrev sixteen : Bytes
sixteen = 1 ∷ 2 ∷ 3 ∷ 4 ∷ 5 ∷ 6 ∷ 7 ∷ 8 ∷ 9 ∷ 10 ∷ 11 ∷ 12 ∷ 13 ∷ 14 ∷ 15 ∷ 255 ∷ []

abbrev pub id : Text
id = hex sixteen

abbrev pub keys : KeyPair
keys = record { public_pem = codes "public"; private_pem = codes "private" }

abbrev at : ℕ → Option Bytes → World1
at now random = record { now = now; keys = gives keys; call = random; limiter_call = tt }

abbrev pub asking : Text → List Text → Request
asking method path = record {
  method = method;
  path = path;
  id = [];
  remote_addr = [];
  forwarded = [];
  body = [];
  limit = none;
}

abbrev Incoming1 : Type 0
Incoming1 = Incoming mem_key_store (Unit {0}) server

abbrev pub post : Incoming1
post = (at 5 (some sixteen), asking (codes "POST") (codes "api" ∷ codes "keys" ∷ []))

abbrev pub get : Incoming1
get = (at 7 none, asking (codes "GET") (codes "api" ∷ codes "keys" ∷ id ∷ []))

abbrev pub get_home : Incoming1
get_home = (at 6 none, asking (codes "GET") ([] ∷ []))

pub apart : IsApart mem_key_store (Unit {0}) server mem_view MemMayUse id
apart = record {
  create_limits = λ world s ip t. refl;
  fetch_limits = λ world s ip t. refl;
  files_still = λ i s w t. refl;
  redirect_still = λ to i s w t. refl;
}

pub other : IsOther mem_key_store (Unit {0}) server mem_view MemMayUse id get_home
unfolding route codes text_eq hex
other = (λ e. go e, λ e. cc)
  where
    go : home ≡ fetch id → ⊥
    go e = cc

pub created :
    IsCreated mem_key_store
      (Unit {0})
      server
      []
      post
      (3600 * 1000000000)
      keys
      id
      (id ++ codes "public")
unfolding route codes text_eq chosen_ttl mem_save put find erase hex
created = record {
  by = refl;
  at = refl;
  passes = refl;
  granted = record {
    asked = pos 3600;
    read = refl;
    chosen = refl;
    generated = refl;
    saved = refl;
    written = refl;
  };
}

pub fetched :
    (s : Table MemEntry) → IsFetched mem_key_store (Unit {0}) server (codes "GET") s get id
unfolding route codes text_eq mem_load hex
fetched s = record {
  by = refl;
  at = refl;
  named = λ e. cc;
  passes = refl;
  found = _;
  loaded = refl;
}

abbrev head : Incoming1
head = (at 7 none, asking (codes "HEAD") (codes "api" ∷ codes "keys" ∷ id ∷ []))

probed : (s : Table MemEntry) → IsFetched mem_key_store (Unit {0}) server (codes "HEAD") s head id
unfolding route codes text_eq mem_load hex
probed s = record { by = refl; at = refl; named = λ e. cc; passes = refl; found = _; loaded = refl }

abbrev holding : Table MemEntry
holding =
    (id, record { rec = record { priv_pem = codes "private"; created_at = 0 }; expiry = 60 }) ∷ []

answer-head_example :
    ((answer mem_key_store (Unit {0}) server holding head).1 ≡ [])
    × ((answer mem_key_store
          (Unit {0})
          server
          (after_all mem_key_store
            (Unit {0})
            server
            (after mem_key_store (Unit {0}) server holding head)
            (get_home ∷ []))
          get).0
        ≡ some 404)
answer-head_example =
    answer-head mem_key_store mem_view MemMayUse AnyRecord AnyCall mem_key_store-IsKeyStore
      (Unit {0}) server id apart holding head (get_home ∷ []) get (probed _) (other, tt) (fetched _)

abbrev ops : List (Op mem_key_store)
ops =
    loads none 1 id
    ∷ saves none 2 (record { priv_pem = []; created_at = 2 }) 60
    ∷ loads none 3 id
    ∷ []

mem_deliveries-le-one_example :
    deliveries mem_key_store id
      ((id, record { rec = record { priv_pem = codes "private"; created_at = 0 }; expiry = 60 })
        ∷ [])
      ops
    ≤ 1
mem_deliveries-le-one_example =
    mem_deliveries-le-one id
      ((id, record { rec = record { priv_pem = codes "private"; created_at = 0 }; expiry = 60 })
        ∷ [])
      ops (tt, ((λ e. cc), (tt, tt)))

-- A server whose decoder panics.
abbrev broken : Server mem_key_store (Unit {0})
broken = record server { json = record json { decode = λ body limit. crashes } }

dynamic_handler-IsAnswered_example : IsAnswered mem_key_store (Unit {0}) broken (
    dynamic_handler mem_key_store
      (Unit {0})
      broken
      create
      (at 6 none)
      []
      fresh
      (asking (codes "POST") (codes "api" ∷ codes "keys" ∷ [])))
dynamic_handler-IsAnswered_example =
    dynamic_handler-IsAnswered mem_key_store (Unit {0}) broken create (at 6 none) []
      (asking (codes "POST") (codes "api" ∷ codes "keys" ∷ []))

chain-nested_example :
    chain ℕ ℕ (security_headers ℕ ℕ ∷ max_body_size ℕ ℕ 10 ∷ []) (λ world s w r. finished s w)
    ≡ nested ℕ ℕ (security_headers ℕ ℕ ∷ max_body_size ℕ ℕ 10 ∷ []) (λ world s w r. finished s w)
chain-nested_example =
    chain-nested ℕ ℕ (security_headers ℕ ℕ ∷ max_body_size ℕ ℕ 10 ∷ [])
      (λ world s w r. finished s w)
