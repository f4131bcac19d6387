-- ===== src/Examples/Resent.antt =====
-- Examples of commands of Redis that are sent again.
use key_bank.Base.{ℕ, ◌*◌, ◌++◌, ◌≤◌, ◌≡◌, refl, List, [], ◌∷◌, none, some, codes, arith}
use key_bank.Server.Go.{fails, hex}
use key_bank.Server.Redis.{answered, lost_after}
use key_bank.Server.Store.{RedisCall, redis_key_store}
use key_bank.Server.Store.Contract.{Op, loads, saves}
use key_bank.Server.Store.Once.{deliveries}
use key_bank.Server.Store.Deliveries.{redis_deliveries-le-one}
use key_bank.Server.Http.{Request, fresh, state_of, answer_of}
use key_bank.Server.Handlers.{new_handlers, World, fetch_key}
use key_bank.Server.Handlers.Gone.{fetch_key-resent}
use key_bank.Examples.MiniRedis.{mini_view, mini_redis}
use key_bank.Examples.MiniRedis.Lawful.{mini_redis-IsLawful}
use key_bank.Examples.Limits.{
  coding, coding-IsCoding, taken, cells, call, lucky_call, rec, ask, json,
}

-- The first answer to the client of Redis is lost.
abbrev unheard : World RedisCall (Unit {0})
unheard = record {
  now = 50;
  keys = fails;
  call = record { random = λ n. none; network = λ n. lost_after ∷ answered ∷ [] };
  limiter_call = tt;
}

abbrev ask_taken : Request
ask_taken = record ask { path = codes "api" ∷ codes "keys" ∷ taken ∷ []; id = taken }

fetch_key-resent_example :
    let ends =
      fetch_key
        (redis_key_store mini_redis coding)
        json
        (Unit {0})
        (new_handlers none)
        unheard
        cells
        fresh
        ask_taken in
    (answer_of ends ≡ (some 404, codes "404 page not found" ++ b'\n' ∷ []))
    × ((t : ℕ) → mini_view (state_of ends) t taken ≡ none)
fetch_key-resent_example =
    fetch_key-resent mini_redis mini_view mini_redis-IsLawful coding json (Unit {0})
      (new_handlers none) unheard cells fresh ask_taken (answered ∷ []) refl tt (refl, refl)

abbrev redis_ops : List (Op (redis_key_store mini_redis coding))
redis_ops =
    loads unheard.call 1 taken ∷ saves lucky_call 2 rec (60 * 1000000000) ∷ loads call 3 taken ∷ []

redis_deliveries-le-one_example :
    deliveries (redis_key_store mini_redis coding) taken cells redis_ops ≤ 1
unfolding hex
redis_deliveries-le-one_example =
    redis_deliveries-le-one mini_redis mini_view mini_redis-IsLawful coding coding-IsCoding taken
      cells redis_ops (tt, ((λ e. ground arith), (tt, tt)))
