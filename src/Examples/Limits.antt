-- ===== src/Examples/Limits.antt =====
-- Examples of the server with Redis.
use key_bank.Base.{
  ℕ, ◌*◌, ◌≤◌, ◌≡◌, refl, subst, min, true, List, [], ◌∷◌, none, some, Text, Bytes, codes, ◌==◌,
  if◌then◌else◌, arith,
}
use key_bank.Js.Url.{text_eq}
use key_bank.Server.Go.{Try, fails, gives, hex}
use key_bank.Server.Redis.{IsLifetime, answered, lost_before, lost_after}
use key_bank.Server.Store.{
  Record, random_id, Coding, RedisCall, redis_save, save_nx, redis_key_store,
}
use key_bank.Server.Store.Contract.{IsKeyStore}
use key_bank.Server.Store.Reads.{IsCoding, redis_view}
use key_bank.Server.Store.Networked.{
  RedisMayUse, RedisMayKeep, RedisIsSure, redis_key_store-IsKeyStore,
}
use key_bank.Server.Store.Unique.{save_nx-keeps, redis_save-replaces}
use key_bank.Server.Http.{Request, fresh, state_of}
use key_bank.Server.Handlers.{new_handlers, Json, World, end_of_body, fetch_key}
use key_bank.Server.Limiter.{counter_key, allow}
use key_bank.Server.Limiter.Window.{Turn, asks, others, allowed, allowed-le-limit, allowed-min}
use key_bank.Server.Limiter.Reset.{allow-fetch_key}
use key_bank.Examples.MiniRedis.{missing, holding, Cells, mini_view, at_key, mini_redis}
use key_bank.Examples.MiniRedis.Lawful.{mini_redis-IsLawful}

-- A record as the time followed by the text.
abbrev unmarshal : Bytes → Try Record
unmarshal [] = fails
unmarshal (t ∷ pem) = gives (record { priv_pem = pem; created_at = t })

abbrev pub coding : Coding
coding = record { marshal = λ rec. gives (rec.created_at ∷ rec.priv_pem); unmarshal = unmarshal }

gives_bytes : {a b : Bytes} → gives a ≡ gives b → a ≡ b
gives_bytes h = ground arith

pub coding-IsCoding : IsCoding coding
coding-IsCoding = record {
  read_back = λ rec b ascii e. subst (λ b. unmarshal b ≡ gives rec) (gives_bytes e) refl;
}

redis_key_store-IsKeyStore_example :
    IsKeyStore
      (redis_key_store mini_redis coding)
      (redis_view mini_redis mini_view mini_redis-IsLawful coding coding-IsCoding)
      (RedisMayUse mini_redis mini_view mini_redis-IsLawful coding coding-IsCoding)
      (RedisMayKeep mini_redis mini_view mini_redis-IsLawful coding coding-IsCoding)
      (RedisIsSure mini_redis mini_view mini_redis-IsLawful coding coding-IsCoding)
redis_key_store-IsKeyStore_example =
    redis_key_store-IsKeyStore mini_redis mini_view mini_redis-IsLawful coding coding-IsCoding

abbrev pub taken : Text
taken = hex (171 ∷ [])

abbrev free : Text
free = hex (172 ∷ [])

-- One key is there until 100.
abbrev pub cells : Cells
cells = at_key taken (holding (codes "old") (some 100)) (λ k. missing)

abbrev pub call : RedisCall
call = record {
  random = λ n. some (if n == 0 then 171 ∷ [] else 172 ∷ []);
  network = λ n. answered ∷ [];
}

abbrev pub lucky_call : RedisCall
lucky_call = record {
  random = λ n. some (172 ∷ []);
  network = λ n. lost_after ∷ lost_before ∷ answered ∷ [];
}

abbrev pub rec : Record
rec = record { priv_pem = codes "private"; created_at = 7 }

there : mini_view cells 7 taken ≡ some (codes "old")
unfolding hex text_eq codes
there = refl

absent : mini_view cells 7 free ≡ none
unfolding hex text_eq codes
absent = refl

save_nx-keeps_example :
    mini_view (save_nx mini_redis coding call 7 cells rec (60 * 1000000000)).0 50 taken
    ≡ mini_view cells 50 taken
save_nx-keeps_example =
    save_nx-keeps mini_redis mini_view mini_redis-IsLawful coding call 7 cells rec (60 * 1000000000)
      taken (codes "old") 50 there

drawn : random_id (call.random 0) ≡ gives taken
drawn = refl

a_minute : IsLifetime (60 * 1000000000)
a_minute = record { seconds = 60; positive = omega arith; whole = refl }

redis_save-replaces_example :
    mini_view (redis_save mini_redis coding call 7 cells rec (60 * 1000000000)).0 50 taken
    ≡ some (7 ∷ codes "private")
redis_save-replaces_example =
    redis_save-replaces mini_redis mini_view mini_redis-IsLawful coding call 7 cells rec
      (60 * 1000000000) taken (7 ∷ codes "private") 50 drawn refl tt a_minute (omega arith)

abbrev nothing : Cells
nothing k = missing

-- Another client keeps a key meanwhile.
abbrev keep_other : Cells → Cells
keep_other m = at_key taken (holding (codes "old") (some 100)) m

abbrev three : List (Turn Cells)
three =
    asks (answered ∷ []) 1
    ∷ others keep_other
    ∷ asks (lost_before ∷ answered ∷ []) 2
    ∷ asks (answered ∷ []) 3
    ∷ []

abbrev losing : List (Turn Cells)
losing =
    asks (lost_after ∷ answered ∷ []) 1
    ∷ others keep_other
    ∷ asks (lost_before ∷ []) 2
    ∷ asks (answered ∷ []) 3
    ∷ []

kept_apart :
    (s : Cells) (t : ℕ)
    → mini_view (keep_other s) t (counter_key (codes "create") (codes "::1"))
      ≡ mini_view s t (counter_key (codes "create") (codes "::1"))
unfolding hex counter_key text_eq codes
kept_apart s t = refl

allowed-min_example : allowed mini_redis (codes "create") 2 (codes "::1") nothing three ≡ min 2 3
allowed-min_example =
    allowed-min mini_redis mini_view mini_redis-IsLawful (codes "create") 2 (codes "::1") 0 three
      nothing (λ t. refl) (omega arith) (tt, (kept_apart, (tt, (tt, tt))))
      (
        (omega arith, omega arith),
        (tt, ((omega arith, omega arith), ((omega arith, omega arith), tt))),
      )
      (tt, (tt, (tt, (tt, tt))))

allowed-le-limit_example : allowed mini_redis (codes "create") 2 (codes "::1") nothing losing ≤ 2
allowed-le-limit_example =
    allowed-le-limit mini_redis mini_view mini_redis-IsLawful (codes "create") 2 (codes "::1") 0
      losing nothing (λ t. refl) (omega arith) (tt, (kept_apart, (tt, (tt, tt))))
      (
        (omega arith, omega arith),
        (tt, ((omega arith, omega arith), ((omega arith, omega arith), tt))),
      )

abbrev pub json : Json
json = record { decode = λ body limit. end_of_body; key_response = λ id pem. gives id }

-- The client is over its limit of 2.
abbrev full : Cells
full = at_key (counter_key (codes "create") (codes "::1")) (holding (codes "3") (some 100)) nothing

abbrev thief : World RedisCall (Unit {0})
thief = record { now = 50; keys = fails; call = call; limiter_call = tt }

abbrev pub ask : Request
ask = record {
  method = codes "GET";
  path = codes "api" ∷ codes "keys" ∷ codes "rl:create:::1" ∷ [];
  id = codes "rl:create:::1";
  remote_addr = [];
  forwarded = [];
  body = [];
  limit = none;
}

its_name : ask.id ≡ counter_key (codes "create") (codes "::1")
unfolding counter_key codes
its_name = refl

allow-fetch_key_example :
    (allow mini_redis
      (codes "create")
      2
      (answered ∷ [])
      60
      (state_of (
        fetch_key
          (redis_key_store mini_redis coding)
          json
          (Unit {0})
          (new_handlers none)
          thief
          full
          fresh
          ask))
      (codes "::1")).1
    ≡ true
allow-fetch_key_example =
    allow-fetch_key mini_redis mini_view mini_redis-IsLawful coding json (Unit {0})
      (new_handlers none) thief full fresh ask (codes "create") (codes "::1") 2 (answered ∷ []) 60
      its_name tt tt (omega arith)
