-- ===== src/Server/Store/Deliveries.antt =====
-- store.go: how often the two stores deliver a key, over calls in any order.
use key_bank.Base.{ℕ, ◌≤◌, List, Option, Text, Bytes, All}
use key_bank.Server.Table.{Table}
use key_bank.Server.Redis.{Redis, IsLawful}
use key_bank.Server.Store.{MemEntry, mem_key_store, Coding, redis_key_store}
use key_bank.Server.Store.Contract.{Op}
use key_bank.Server.Store.Memory.{mem_view, MemMayUse, AnyRecord, AnyCall, mem_key_store-IsKeyStore}
use key_bank.Server.Store.Reads.{IsCoding, redis_view}
use key_bank.Server.Store.Networked.{
  RedisMayUse, RedisMayKeep, RedisIsSure, redis_key_store-IsKeyStore,
}
use key_bank.Server.Store.Once.{deliveries, IsForeign, deliveries-le-one}

-- No operation draws the ID.
abbrev pub MemIsForeign : Text → Op mem_key_store → Type 0
MemIsForeign = IsForeign mem_key_store mem_view MemMayUse AnyRecord AnyCall mem_key_store-IsKeyStore

-- If no save draws an ID, the store in memory delivers a record under that ID at most once, whatever
-- is there first and whatever loads and saves come in whatever order.
pub mem_deliveries-le-one :
    (id : Text) (s : Table MemEntry) (ops : List (Op mem_key_store))
    → All (MemIsForeign id) ops
    → deliveries mem_key_store id s ops ≤ 1
mem_deliveries-le-one =
    deliveries-le-one mem_key_store mem_view MemMayUse AnyRecord AnyCall mem_key_store-IsKeyStore

module _ (redis : Redis) (view : redis.State → ℕ → Text → Option Bytes) (laws : IsLawful redis view)
    (json : Coding) (coding : IsCoding json) where
  abbrev pub RedisIsForeign : Text → Op (redis_key_store redis json) → Type 0
  RedisIsForeign =
      IsForeign (redis_key_store redis json) (redis_view redis view laws json coding)
        (RedisMayUse redis view laws json coding) (RedisMayKeep redis view laws json coding)
        (RedisIsSure redis view laws json coding)
        (redis_key_store-IsKeyStore redis view laws json coding)

  -- If no save draws an ID, the store in a lawful Redis, with a JSON coding that reads back records in
  -- ASCII, delivers a record under that ID at most once, whatever is there first, whatever loads and
  -- saves come in whatever order, and whatever the network loses and the client of Redis sends again.
  pub redis_deliveries-le-one :
      (id : Text) (s : redis.State) (ops : List (Op (redis_key_store redis json)))
      → All (RedisIsForeign id) ops
      → deliveries (redis_key_store redis json) id s ops ≤ 1
  redis_deliveries-le-one =
      deliveries-le-one (redis_key_store redis json) (redis_view redis view laws json coding)
        (RedisMayUse redis view laws json coding) (RedisMayKeep redis view laws json coding)
        (RedisIsSure redis view laws json coding)
        (redis_key_store-IsKeyStore redis view laws json coding)
