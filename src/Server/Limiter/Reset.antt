-- ===== src/Server/Limiter/Reset.antt =====
-- ratelimit.go and the handler for a key: they share one Redis, and its names.
use key_bank.Base.{ℕ, ◌≤◌, ◌≡◌, ◌∙◌, sym, ap, true, Option, none, Text, Bytes, arith}
use key_bank.Server.Redis.{Redis, IsLawful, Network, IsPrompt, HasArrived}
use key_bank.Server.Store.{Coding, RedisCall, redis_key_store}
use key_bank.Server.Http.{Request, Writer, state_of}
use key_bank.Server.Handlers.{Json, Handlers, World, fetch_key}
use key_bank.Server.Handlers.Gone.{loaded_gone}
use key_bank.Server.Limiter.{counter_key, allow}
use key_bank.Server.Limiter.Sent.{send_counts_one}

module _ (redis : Redis) (view : redis.State → ℕ → Text → Option Bytes) (laws : IsLawful redis view)
    (coding : Coding) (json : Json) (LimiterCall : Type 0) (h : Handlers) where
  -- Let any client ask for the key whose ID is the name of a client's counter in a lawful Redis,
  -- and the command reach it. Then the next request of the client whose counter it is is allowed,
  -- whatever was counted before, if the limit allows any and Redis answers the script with no answer
  -- lost before.
  pub allow-fetch_key :
      (world : World RedisCall LimiterCall) (s : redis.State) (w : Writer) (r : Request)
      (bucket ip : Text) (limit : ℕ) (network : Network) (now : ℕ)
      → r.id ≡ counter_key bucket ip
      → HasArrived (world.call.network 0)
      → IsPrompt network
      → 1 ≤ limit
      → (allow redis bucket limit network now
          (state_of (fetch_key (redis_key_store redis coding) json LimiterCall h world s w r))
          ip).1
        ≡ true
  unfolding allow
  allow-fetch_key world s w r bucket ip limit network now is_counter reached prompt some_allowed =
      let left =
        state_of (fetch_key (redis_key_store redis coding) json LimiterCall h world s w r) in
      let gone : (t : ℕ) → view left t (counter_key bucket ip) ≡ none = λ t.
        ap (view left t) (sym is_counter)
        ∙ loaded_gone redis view laws coding json LimiterCall h world s w r t reached in
      let (first, _) =
        send_counts_one redis view laws bucket limit ip now now (omega arith, omega arith) network 0
          left prompt (omega arith) gone in
      first ∙ ground arith
