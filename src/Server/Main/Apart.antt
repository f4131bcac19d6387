-- ===== src/Server/Main/Apart.antt =====
-- main.go with Redis: the names of the keys and of the counters.
use key_bank.Base.{
  ℕ, ◌+◌, ◌*◌, ◌<◌, ◌≡◌, ◌≢◌, ◌∙◌, refl, ap, Bool, true, false, List, [], ◌∷◌, Option, some, Text,
  Bytes, codes, All, ◌==◌, if◌then◌else◌, arith,
}
use key_bank.Server.Go.{Try, fails, gives, hex, second}
use key_bank.Server.Redis.{
  IsLifetime, Redis, IsLawful, Network, IsPrompt, send, answered, lost_before, lost_after,
}
use key_bank.Server.Store.{Record, Coding, RedisCall, redis_key_store}
use key_bank.Server.Store.Reads.{IsAscii, IsCoding, record_of, redis_view}
use key_bank.Server.Store.Networked.{
  RedisMayUse, RedisMayKeep, RedisIsSure, redis_key_store-IsKeyStore,
}
use key_bank.Server.Http.{Handler}
use key_bank.Server.Handlers.{KeyPair, World}
use key_bank.Server.Routes.{Server}
use key_bank.Server.Limiter.{counter_key, counted, incr_script, allow}
use key_bank.Server.System.{Incoming, answer, IsCreated, IsFetched, IsStill, IsApart, IsOther}
use key_bank.Server.System.Exchange.{before_get, before_again, fetch-create}
use key_bank.Server.Config.{Config}
use key_bank.Server.Main.{Packages, redis_server}

abbrev pub IsByte : ℕ → Type 0
IsByte b = b < 256

-- No digit is an `r`.
hex-counter_key :
    (bytes : Bytes) (bucket ip : Text) → All IsByte bytes → counter_key bucket ip ≢ hex bytes
unfolding hex counter_key codes
hex-counter_key [] bucket ip h e = cc
hex-counter_key (b ∷ bs) bucket ip (hb, h) e = ground arith

module _ (redis : Redis) (view : redis.State → ℕ → Text → Option Bytes)
    (laws : IsLawful redis view) where
  script_other :
      (s : redis.State) (now : ℕ) (k j : Text) (t : ℕ)
      → k ≢ j
      → view (incr_script redis s now k).0 t j ≡ view s t j
  unfolding incr_script
  script_other s now k j t ne = go (redis.incr s now k).1
    where
      go : (r : Try ℕ) → view (counted redis now k ((redis.incr s now k).0, r)).0 t j ≡ view s t j
      go fails = laws.incr_other s now k j t ne
      go (gives n) = kept (n == 1)
        where
          kept :
              (b : Bool)
              → view
                  (if b
                    then redis.expire (redis.incr s now k).0 now k (3600 * second)
                    else (redis.incr s now k).0)
                  t
                  j
                ≡ view s t j
          kept true =
              laws.expire_other (redis.incr s now k).0 now k j (3600 * second) t ne
              ∙ laws.incr_other s now k j t ne
          kept false = laws.incr_other s now k j t ne

  sent_other :
      (network : Network) (s : redis.State) (now : ℕ) (k j : Text) (t : ℕ)
      → k ≢ j
      → view (send network (λ m. incr_script redis m now k) s).0 t j ≡ view s t j
  sent_other [] s now k j t ne = refl
  sent_other (answered ∷ more) s now k j t ne = script_other s now k j t ne
  sent_other (lost_before ∷ more) s now k j t ne = sent_other more s now k j t ne
  sent_other (lost_after ∷ more) s now k j t ne =
      sent_other more (incr_script redis s now k).0 now k j t ne ∙ script_other s now k j t ne

  -- A limiter leaves every key that is not its counter as it is.
  allow_other :
      (bucket : Text) (limit : ℕ) (network : Network) (now : ℕ) (s : redis.State) (ip id : Text)
      (t : ℕ)
      → counter_key bucket ip ≢ id
      → view (allow redis bucket limit network now s ip).0 t id ≡ view s t id
  unfolding allow
  allow_other bucket limit network now s ip id t ne =
      sent_other network s now (counter_key bucket ip) id t ne

module _ (redis : Redis) (view : redis.State → ℕ → Text → Option Bytes) (laws : IsLawful redis view)
    (coding : Coding) (codes_well : IsCoding coding)
    (packages : Packages (redis_key_store redis coding) Network) (config : Config) where
  abbrev pub main_server : Server (redis_key_store redis coding) Network
  main_server = redis_server redis coding packages config

  abbrev pub main_view : redis.State → ℕ → Text → Option Record
  main_view = redis_view redis view laws coding codes_well

  abbrev pub MainMayUse : RedisCall → Text → Type 0
  MainMayUse = RedisMayUse redis view laws coding codes_well

  module _ (bytes : Bytes) where
    abbrev pub MainIsStill : Handler redis.State (World RedisCall Network) → Type 0
    MainIsStill =
        IsStill (redis_key_store redis coding) Network main_server main_view MainMayUse (hex bytes)

    pub redis_server-IsApart :
        All IsByte bytes
        → MainIsStill packages.files
        → ((to : Text) → MainIsStill (packages.redirect to))
        → IsApart
            (redis_key_store redis coding)
            Network
            main_server
            main_view
            MainMayUse
            (hex bytes)
    unfolding redis_server
    redis_server-IsApart is_bytes files redirect = record {
      create_limits = λ world s ip t. ap (record_of coding) (
          allow_other redis view laws (codes "create") config.rate_limit_create world.limiter_call
            world.now s ip (hex bytes) t (hex-counter_key bytes (codes "create") ip is_bytes));
      fetch_limits = λ world s ip t. ap (record_of coding) (
          allow_other redis view laws (codes "fetch") config.rate_limit_fetch world.limiter_call
            world.now s ip (hex bytes) t (hex-counter_key bytes (codes "fetch") ip is_bytes));
      files_still = files;
      redirect_still = redirect;
    }

    abbrev pub I : Type 0
    I = Incoming (redis_key_store redis coding) Network main_server

    abbrev pub MainOthers : List I → Type 0
    MainOthers = All (
        IsOther (redis_key_store redis coding) Network main_server main_view MainMayUse (hex bytes))

    -- Take the server that main makes with a lawful Redis, which counts the requests of clients
    -- beside the keys, and let the file server and the redirect leave the keys alone. Let a POST
    -- for a new key draw these bytes and be granted, with a private key in ASCII and a lifetime of
    -- whole seconds; then come requests that neither ask for the ID nor draw it, then a GET for
    -- the ID before the lifetime has passed, for which no answer of Redis is lost before the
    -- client has one, then others again, and then one more GET for the ID, where the limiter lets
    -- both through and Redis answers both. Then the three answers are 201 with the body for the ID
    -- and the public key, 200 with the private key, and 404.
    pub redis_server-delivers :
        (s : redis.State) (post : I) (ttl : ℕ) (keys : KeyPair) (body : Bytes) (between : List I)
        (get : I) (later : List I) (again : I)
        → All IsByte bytes
        → MainIsStill packages.files
        → ((to : Text) → MainIsStill (packages.redirect to))
        → IsCreated
            (redis_key_store redis coding)
            Network
            main_server
            s
            post
            ttl
            keys
            (hex bytes)
            body
        → IsAscii keys.private_pem
        → IsLifetime ttl
        → MainOthers between
        → IsFetched
            (redis_key_store redis coding)
            Network
            main_server
            (codes "GET")
            (before_get (redis_key_store redis coding) Network main_server s post between)
            get
            (hex bytes)
        → IsPrompt (get.0.call.network 0)
        → get.0.now < post.0.now + ttl
        → MainOthers later
        → IsFetched
            (redis_key_store redis coding)
            Network
            main_server
            (codes "GET")
            (before_again
              (redis_key_store redis coding)
              Network
              main_server
              s
              post
              between
              get
              later)
            again
            (hex bytes)
        → (answer (redis_key_store redis coding) Network main_server s post ≡ (some 201, body))
          × (answer
                (redis_key_store redis coding)
                Network
                main_server
                (before_get (redis_key_store redis coding) Network main_server s post between)
                get
              ≡ (some 200, keys.private_pem))
          × ((answer
                (redis_key_store redis coding)
                Network
                main_server
                (before_again
                  (redis_key_store redis coding)
                  Network
                  main_server
                  s
                  post
                  between
                  get
                  later)
                again).0
              ≡ some 404)
    redis_server-delivers s post ttl keys body between get later again is_bytes files redirect made
          ascii life o got prompt early o' got' =
        fetch-create (redis_key_store redis coding) main_view MainMayUse
          (RedisMayKeep redis view laws coding codes_well)
          (RedisIsSure redis view laws coding codes_well)
          (redis_key_store-IsKeyStore redis view laws coding codes_well) Network main_server
          (hex bytes) (redis_server-IsApart is_bytes files redirect) s post ttl keys body between
          get later again made (ascii, life) o got prompt early o' got'
