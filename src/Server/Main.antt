-- ===== src/Server/Main.antt =====
-- main.go: the server that the configuration asks for.
pub mod Apart
use key_bank.Base.{ℕ, Bool, Option, Text, Bytes, codes}
use key_bank.Server.Go.{Try}
use key_bank.Server.Redis.{Redis, Network}
use key_bank.Server.Store.{KeyStore, Coding, RedisCall, redis_key_store, mem_key_store}
use key_bank.Server.Http.{Handler}
use key_bank.Server.Handlers.{PageData, Json, World}
use key_bank.Server.Middleware.{Addresses}
use key_bank.Server.Limiter.{allow, allow_all}
use key_bank.Server.Routes.{Server}
use key_bank.Server.Config.{Config, main_handlers}

-- What the code is given by the packages it calls, for a store and a limiter.
pub record Packages (ks : KeyStore) (LimiterCall : Type 0) : Type 0 where
  pub json : Json
  pub templates : Option (PageData → Try Bytes)
  pub addresses : Addresses
  pub redirect : Text → Handler ks.State (World ks.Call LimiterCall)
  pub files : Handler ks.State (World ks.Call LimiterCall)

-- With KEYBANK_STORE=mem: no limits.
unfoldable pub mem_server :
    Packages mem_key_store (Unit {0}) → Config → Server mem_key_store (Unit {0})
mem_server packages config = record {
  json = packages.json;
  handlers = main_handlers packages.templates config;
  addresses = packages.addresses;
  trust_xff = config.trust_xff;
  allow_create = λ world s ip. allow_all s ip;
  allow_fetch = λ world s ip. allow_all s ip;
  redirect = packages.redirect;
  files = packages.files;
}

-- With Redis: the limiters count in the Redis of the store. A limiter's call is its network.
unfoldable pub redis_server :
    (redis : Redis) (coding : Coding)
    → Packages (redis_key_store redis coding) Network
    → Config
    → Server (redis_key_store redis coding) Network
redis_server redis coding packages config = record {
  json = packages.json;
  handlers = main_handlers packages.templates config;
  addresses = packages.addresses;
  trust_xff = config.trust_xff;
  allow_create = λ world s ip.
      allow redis (codes "create") config.rate_limit_create world.limiter_call world.now s ip;
  allow_fetch = λ world s ip.
      allow redis (codes "fetch") config.rate_limit_fetch world.limiter_call world.now s ip;
  redirect = packages.redirect;
  files = packages.files;
}
