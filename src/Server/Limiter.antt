-- ===== src/Server/Limiter.antt =====
-- ratelimit.go: a fixed window of an hour for each bucket and client, counted in Redis.
pub mod Script
pub mod Sent
pub mod Window
pub mod Reset
use key_bank.Base.{ℕ, ◌*◌, Bool, true, false, ◌∷◌, ◌++◌, Text, codes, leb, ◌==◌, if◌then◌else◌}
use key_bank.Server.Go.{Try, fails, gives, second}
use key_bank.Server.Redis.{Redis, Network, send}

-- The key of a client's counter.
unfoldable pub counter_key : Text → Text → Text
counter_key bucket ip = codes "rl:" ++ (bucket ++ (b':' ∷ ip))

-- The reply of the script, over the network.
abbrev pub reply_of : Try (Try ℕ) → Try ℕ
reply_of fails = fails
reply_of (gives r) = r

-- It fails closed.
abbrev pub within : ℕ → Try ℕ → Bool
within limit fails = false
within limit (gives count) = leb count limit

module _ (redis : Redis) where
  -- The script: the counter is incremented, and expires an hour after its first count. An error of the
  -- command ends the script.
  abbrev pub counted : ℕ → Text → redis.State × Try ℕ → redis.State × Try ℕ
  counted now key (s, fails) = (s, fails)
  counted now key (s, gives count) =
      (if count == 1 then redis.expire s now key (3600 * second) else s, gives count)

  unfoldable pub incr_script : redis.State → ℕ → Text → redis.State × Try ℕ
  incr_script s now key = counted now key (redis.incr s now key)

  unfoldable pub allow : Text → ℕ → Network → ℕ → redis.State → Text → redis.State × Bool
  unfolding incr_script
  allow bucket limit network now s ip =
      let (s', reply) = send network (λ m. incr_script m now (counter_key bucket ip)) s in
      (s', within limit (reply_of reply))

-- `noopRateLimiter`
abbrev pub allow_all {ℓ} : {S : Type ℓ} → S → Text → S × Bool
allow_all s ip = (s, true)
