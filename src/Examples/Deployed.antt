-- ===== src/Examples/Deployed.antt =====
-- Examples of the server that main makes with Redis.
use key_bank.Base.{
  ℕ, ◌<◌, ◌*◌, ◌≡◌, ◌≢◌, refl, false, [], ◌∷◌, ◌++◌, none, some, Bytes, codes, All, ltb, arith,
}
use key_bank.Js.Url.{text_eq}
use key_bank.Js.Number.{decimal}
use key_bank.Server.Go.{gives, pos, hex}
use key_bank.Server.Redis.{IsLifetime, Network, answered, lost_after}
use key_bank.Server.Store.{
  RedisCall, redis_save, redis_load, redis_key_store, adapter_save, adapter_load,
}
use key_bank.Server.Store.Reads.{IsAscii}
use key_bank.Server.Http.{finished}
use key_bank.Server.Handlers.{
  KeyPair, World, request, nothing_more, chosen_ttl, set_max_ttl, configured_handlers, create_key,
  fetch_key,
}
use key_bank.Server.Limiter.{counter_key, incr_script, allow}
use key_bank.Server.Routes.{Server, create, fetch, route, app}
use key_bank.Server.Middleware.{
  chain, chain_loop, panic_recover, security_headers, max_body_size, rate_limit, remote_ip,
}
use key_bank.Server.Config.{Config, main_handlers}
use key_bank.Server.Main.{Packages, redis_server}
use key_bank.Server.Main.Apart.{IsByte, main_server, I, MainOthers, redis_server-delivers}
use key_bank.Server.System.{after, after_all, answer, IsCreated, IsFetched}
use key_bank.Server.System.Exchange.{before_get, before_again}
use key_bank.Examples.Checks.{All_of_test}
use key_bank.Examples.MiniRedis.{missing, Cells, mini_view, mini_redis}
use key_bank.Examples.MiniRedis.Lawful.{mini_redis-IsLawful}
use key_bank.Examples.Limits.{coding, coding-IsCoding}
use key_bank.Examples.Servers.{asking}

abbrev packages : Packages (redis_key_store mini_redis coding) Network
packages = record {
  json = record {
    decode = λ body limit. request (pos 3600) nothing_more;
    key_response = λ id pem. gives (id ++ pem);
  };
  templates = none;
  addresses = record {
    split_host_port = λ t. none;
    is_loopback_ip = λ t. false;
    is_private_ip = λ t. false;
  };
  redirect = λ to world s w r. finished s w;
  files = λ world s w r. finished s w;
}

abbrev config : Config
config = record {
  port = codes "14000";
  redis_addr = codes "localhost:6379";
  store_backend = codes "redis";
  auto_hide_seconds = 60;
  rate_limit_create = 1;
  rate_limit_fetch = 2;
  max_ttl = 7200 * 1000000000;
  trust_xff = false;
}

abbrev two_bytes : Bytes
two_bytes = 171 ∷ 205 ∷ []

abbrev keys : KeyPair
keys = record { public_pem = codes "public"; private_pem = codes "private" }

abbrev drawing : RedisCall
drawing = record { random = λ n. some two_bytes; network = λ n. answered ∷ [] }

abbrev unlucky : RedisCall
unlucky = record { random = λ n. none; network = λ n. lost_after ∷ [] }

abbrev Incoming1 : Type 0
Incoming1 =
    I mini_redis mini_view mini_redis-IsLawful coding coding-IsCoding packages config two_bytes

abbrev at : ℕ → RedisCall → World RedisCall Network
at now call = record { now = now; keys = gives keys; call = call; limiter_call = answered ∷ [] }

abbrev post : Incoming1
post = (at 5 drawing, asking (codes "POST") (codes "api" ∷ codes "keys" ∷ []))

abbrev post_again : Incoming1
post_again = (at 6 unlucky, asking (codes "POST") (codes "api" ∷ codes "keys" ∷ []))

abbrev get : Incoming1
get = (at 7 drawing, asking (codes "GET") (codes "api" ∷ codes "keys" ∷ hex two_bytes ∷ []))

abbrev empty : Cells
empty k = missing

abbrev main : Server (redis_key_store mini_redis coding) Network
main = main_server mini_redis mini_view mini_redis-IsLawful coding coding-IsCoding packages config

created :
    IsCreated
      (redis_key_store mini_redis coding)
      Network
      main
      empty
      post
      (3600 * 1000000000)
      keys
      (hex two_bytes)
      (hex two_bytes ++ codes "public")
unfolding route codes text_eq chosen_ttl redis_server main_handlers configured_handlers set_max_ttl
    allow incr_script counter_key decimal redis_save hex
created = record {
  by = refl;
  at = refl;
  passes = refl;
  granted = record {
    asked = pos 3600;
    read = refl;
    chosen = refl;
    generated = refl;
    saved = refl;
    written = refl;
  };
}

other :
    MainOthers mini_redis mini_view mini_redis-IsLawful coding coding-IsCoding packages config
      two_bytes
      (post_again ∷ [])
unfolding route codes text_eq
other = ((λ e. go e, λ e. cc), tt)
  where
    go : create ≡ fetch (hex two_bytes) → ⊥
    go e = cc

named : hex two_bytes ≢ []
unfolding hex
named e = cc

fetched :
    IsFetched
      (redis_key_store mini_redis coding)
      Network
      main
      (codes "GET")
      (before_get (redis_key_store mini_redis coding) Network main empty post (post_again ∷ []))
      get
      (hex two_bytes)
unfolding route codes text_eq chosen_ttl redis_server main_handlers configured_handlers set_max_ttl
    allow incr_script counter_key decimal redis_save redis_load hex after_all after app chain
    chain_loop panic_recover security_headers max_body_size rate_limit remote_ip create_key
    adapter_save
fetched = record {
  by = refl;
  at = refl;
  named = named;
  passes = refl;
  found = some (record { priv_pem = codes "private"; created_at = 5 });
  loaded = refl;
}

fetched_again :
    IsFetched
      (redis_key_store mini_redis coding)
      Network
      main
      (codes "GET")
      (before_again
        (redis_key_store mini_redis coding)
        Network
        main
        empty
        post
        (post_again ∷ [])
        get
        (post_again ∷ []))
      get
      (hex two_bytes)
unfolding route codes text_eq chosen_ttl redis_server main_handlers configured_handlers set_max_ttl
    allow incr_script counter_key decimal redis_save redis_load hex after_all after app chain
    chain_loop panic_recover security_headers max_body_size rate_limit remote_ip create_key
    adapter_save fetch_key adapter_load
fetched_again = record {
  by = refl;
  at = refl;
  named = named;
  passes = refl;
  found = none;
  loaded = refl;
}

bytes-IsByte : All IsByte two_bytes
bytes-IsByte = (omega arith, (omega arith, tt))

private-IsAscii : IsAscii keys.private_pem
unfolding codes
private-IsAscii =
    All_of_test (λ c. c < 128) (λ c. ltb c 128) (λ c h. ground arith) keys.private_pem refl

an_hour : IsLifetime (3600 * 1000000000)
an_hour = record { seconds = 3600; positive = omega arith; whole = refl }

redis_server-delivers_example :
    (answer (redis_key_store mini_redis coding) Network main empty post
      ≡ (some 201, hex two_bytes ++ codes "public"))
    × (answer
          (redis_key_store mini_redis coding)
          Network
          main
          (before_get (redis_key_store mini_redis coding) Network main empty post (post_again ∷ []))
          get
        ≡ (some 200, codes "private"))
    × ((answer
          (redis_key_store mini_redis coding)
          Network
          main
          (before_again
            (redis_key_store mini_redis coding)
            Network
            main
            empty
            post
            (post_again ∷ [])
            get
            (post_again ∷ []))
          get).0
        ≡ some 404)
redis_server-delivers_example =
    redis_server-delivers mini_redis mini_view mini_redis-IsLawful coding coding-IsCoding packages
      config two_bytes empty post (3600 * 1000000000) keys (hex two_bytes ++ codes "public")
      (post_again ∷ []) get (post_again ∷ []) get bytes-IsByte (λ i s w t. refl)
      (λ to i s w t. refl) created private-IsAscii an_hour other fetched tt (omega arith) other
      fetched_again
