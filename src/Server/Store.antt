-- ===== src/Server/Store.antt =====
-- store.go: the keys until they are fetched, in memory or in Redis. internal/store/store.go differs in
-- `Save` to Redis only, which is `save_nx` here.
pub mod Contract
pub mod Once
pub mod Memory
pub mod Reads
pub mod Networked
pub mod Unique
pub mod Deliveries
use key_bank.Base.{
  ℕ, zero, suc, ◌+◌, Bool, true, false, Option, none, some, Text, Bytes, ltb, if◌then◌else◌,
}
use key_bank.Server.Go.{Try, fails, gives, hex}
use key_bank.Server.Table.{Table, find, erase, put}
use key_bank.Server.Redis.{Redis, Network, send}

pub record Record : Type 0 where
  pub priv_pem : Text
  pub created_at : ℕ

-- The interface that the server stores keys through. `Call` is what the world adds to one call: the
-- random bytes, and how the network fares. The numbers are the time of the call and the TTL.
pub record KeyStore : Type 1 where
  pub State : Type 0
  pub Call : Type 0
  pub save : Call → ℕ → State → Record → ℕ → State × Try Text
  pub load : Call → ℕ → State → Text → State × Try (Option Record)

-- `randomID`, from sixteen random bytes, if there are any
abbrev pub random_id : Option Bytes → Try Text
random_id none = fails
random_id (some bytes) = gives (hex bytes)

pub record MemEntry : Type 0 where
  pub rec : Record
  pub expiry : ℕ

abbrev pub mem_saved : Try Text → ℕ → Table MemEntry → Record → ℕ → Table MemEntry × Try Text
mem_saved fails now entries rec ttl = (entries, fails)
mem_saved (gives id) now entries rec ttl =
    (put id (record { rec = rec; expiry = now + ttl }) entries, gives id)

unfoldable pub mem_save : Option Bytes → ℕ → Table MemEntry → Record → ℕ → Table MemEntry × Try Text
mem_save random now entries rec ttl = mem_saved (random_id random) now entries rec ttl

-- What the entry yields; `time.Now().After(expiry)` is its end.
abbrev pub unexpired : ℕ → Option MemEntry → Option Record
unexpired now none = none
unexpired now (some entry) = if ltb entry.expiry now then none else some entry.rec

unfoldable pub mem_load :
    Option Bytes → ℕ → Table MemEntry → Text → Table MemEntry × Try (Option Record)
mem_load random now entries id = (erase id entries, gives (unexpired now (find id entries)))

abbrev pub mem_key_store : KeyStore
mem_key_store = record {
  State = Table MemEntry;
  Call = Option Bytes;
  save = mem_save;
  load = mem_load;
}

-- `encoding/json` for records
pub record Coding : Type 0 where
  pub marshal : Record → Try Bytes
  pub unmarshal : Bytes → Try Record

-- The random bytes and the network for each command of a call.
pub record RedisCall : Type 0 where
  pub random : ℕ → Option Bytes
  pub network : ℕ → Network

abbrev pub read_record : Try Record → Try (Option Record)
read_record fails = fails
read_record (gives rec) = gives (some rec)

-- What `GETDEL` has answered.
abbrev pub decoded : Coding → Try (Option Bytes) → Try (Option Record)
decoded json fails = fails
decoded json (gives none) = gives none
decoded json (gives (some value)) = read_record (json.unmarshal value)

module _ (redis : Redis) (json : Coding) where
  abbrev pub stored : Text → redis.State × Try (Unit {0}) → redis.State × Try Text
  stored id (s, fails) = (s, fails)
  stored id (s, gives u) = (s, gives id)

  abbrev pub redis_saved :
      RedisCall → ℕ → redis.State → ℕ → Try Text → Try Bytes → redis.State × Try Text
  redis_saved call now s ttl fails payload = (s, fails)
  redis_saved call now s ttl (gives id) fails = (s, fails)
  redis_saved call now s ttl (gives id) (gives payload) =
      stored id (send (call.network 0) (λ m. (redis.set m now id payload ttl, tt)) s)

  unfoldable pub redis_save : RedisCall → ℕ → redis.State → Record → ℕ → redis.State × Try Text
  redis_save call now s rec ttl =
      redis_saved call now s ttl (random_id (call.random 0)) (json.marshal rec)

  unfoldable pub redis_load : RedisCall → ℕ → redis.State → Text → redis.State × Try (Option Record)
  redis_load call now s id =
      let (s', answer) = send (call.network 0) (λ m. redis.get_del m now id) s in
      (s', decoded json answer)

  -- One attempt of the loop of internal/store: an ID, or a failure, or one more attempt.
  abbrev pub tried :
      Text
      → redis.State × Try Bool
      → (redis.State → redis.State × Try Text)
      → redis.State × Try Text
  tried id (s, fails) again = (s, fails)
  tried id (s, gives true) again = (s, gives id)
  tried id (s, gives false) again = again s

  abbrev pub attempt :
      RedisCall
      → ℕ
      → ℕ
      → Bytes
      → ℕ
      → redis.State
      → Try Text
      → (redis.State → redis.State × Try Text)
      → redis.State × Try Text
  attempt call n now payload ttl s fails again = (s, fails)
  attempt call n now payload ttl s (gives id) again =
      tried id (send (call.network n) (λ m. redis.set_nx m now id payload ttl) s) again

  unfoldable pub attempts : ℕ → RedisCall → ℕ → ℕ → Bytes → ℕ → redis.State → redis.State × Try Text
  attempts zero call n now payload ttl s = (s, fails)
  attempts (suc left) call n now payload ttl s =
      attempt call n now payload ttl s (random_id (call.random n))
        (attempts left call (suc n) now payload ttl)

  abbrev pub marshalled : RedisCall → ℕ → redis.State → ℕ → Try Bytes → redis.State × Try Text
  marshalled call now s ttl fails = (s, fails)
  marshalled call now s ttl (gives payload) = attempts 3 call 0 now payload ttl s

  unfoldable pub save_nx : RedisCall → ℕ → redis.State → Record → ℕ → redis.State × Try Text
  unfolding attempts
  save_nx call now s rec ttl = marshalled call now s ttl (json.marshal rec)

  abbrev pub redis_key_store : KeyStore
  redis_key_store = record {
    State = redis.State;
    Call = RedisCall;
    save = redis_save;
    load = redis_load;
  }

-- The adapter for the handlers, which know of no records.
module _ (ks : KeyStore) where
  unfoldable pub adapter_save : ks.Call → ℕ → ks.State → Bytes → ℕ → ks.State × Try Text
  adapter_save call now s priv_pem ttl =
      ks.save call now s (record { priv_pem = priv_pem; created_at = now }) ttl

  abbrev pub pem_of : Try (Option Record) → Try (Option Bytes)
  pem_of fails = fails
  pem_of (gives none) = gives none
  pem_of (gives (some rec)) = gives (some rec.priv_pem)

  unfoldable pub adapter_load : ks.Call → ℕ → ks.State → Text → ks.State × Try (Option Bytes)
  adapter_load call now s id = let (s', answer) = ks.load call now s id in (s', pem_of answer)
