-- ===== src/Server/Store/Networked.antt =====
-- store.go: the store in Redis, against the contract of a key store.
use key_bank.Base.{[], ◌∷◌, ℕ, ◌+◌, ◌<◌, ◌≡◌, ◌∙◌, refl, ap, Option, none, some, Text, Bytes, arith}
use key_bank.Server.Go.{Try, fails, gives}
use key_bank.Server.Redis.{
  Redis, IsLifetime, IsLawful, Network, IsPrompt, answered, lost_before, lost_after, send,
}
use key_bank.Server.Store.{
  Record, random_id, Coding, RedisCall, stored, redis_saved, redis_save, redis_load,
  redis_key_store,
}
use key_bank.Server.Store.Reads.{
  IsAscii, IsCoding, kept_record, record_of, redis_view, load_reads, load_finds, load_empties,
  load_keeps, load_puts_nothing,
}
use key_bank.Server.Store.Contract.{IsKeyStore}

module _ (redis : Redis) (view : redis.State → ℕ → Text → Option Bytes) (laws : IsLawful redis view)
    (json : Coding) (coding : IsCoding json) where
  abbrev pub RedisMayUse : RedisCall → Text → Type 0
  RedisMayUse call id = random_id (call.random 0) ≡ gives id

  -- No answer of the call is lost before one comes.
  abbrev pub RedisIsSure : RedisCall → Type 0
  RedisIsSure call = IsPrompt (call.network 0)

  abbrev pub RedisMayKeep : Record → ℕ → Type 0
  RedisMayKeep rec ttl = IsAscii rec.priv_pem × IsLifetime ttl

  module _ (call : RedisCall) (now : ℕ) (s : redis.State) (rec : Record) (ttl : ℕ) where
    abbrev saved : Try Text → Try Bytes → redis.State × Try Text
    saved = redis_saved redis json call now s ttl

    -- A save that reports an ID has drawn it, written the record, and had its answer; the record was
    -- written last into the state `before`.
    record Saves (r : Try Text) (payload : Try Bytes) (id : Text) : Type 0 where
      drawn : r ≡ gives id
      value : Bytes
      written : payload ≡ gives value
      before : redis.State
      state_is : (saved r payload).0 ≡ redis.set before now id value ttl

    abbrev put : Network → redis.State → Text → Bytes → redis.State × Try Text
    put network m j value =
        stored redis json j (send network (λ m. (redis.set m now j value ttl, tt)) m)

    saved_at :
        (network : Network) (m : redis.State) (j id : Text) (value : Bytes)
        → (put network m j value).1 ≡ gives id
        → (j ≡ id)
          × (before : redis.State) × ((put network m j value).0 ≡ redis.set before now j value ttl)
    saved_at [] m j id value e = cc
    saved_at (answered ∷ more) m j id value e = (ground arith, m, refl)
    saved_at (lost_before ∷ more) m j id value e = saved_at more m j id value e
    saved_at (lost_after ∷ more) m j id value e =
        saved_at more (redis.set m now j value ttl) j id value e

    saves :
        (r : Try Text) (payload : Try Bytes) (id : Text)
        → (saved r payload).1 ≡ gives id
        → Saves r payload id
    saves fails payload id e = cc
    saves (gives j) fails id e = cc
    saves (gives j) (gives value) id e =
        let (same, before, state) = saved_at (call.network 0) s j id value e in
        record {
          drawn = ap gives same;
          value = value;
          written = refl;
          before = before;
          state_is = state ∙ ap (λ k. redis.set before now k value ttl) same;
        }

    saved_other :
        (r : Try Text) (payload : Try Bytes) (k : Text) (t : ℕ)
        → (r ≡ gives k → ⊥)
        → view (saved r payload).0 t k ≡ view s t k
    saved_other fails payload k t ne = refl
    saved_other (gives j) fails k t ne = refl
    saved_other (gives j) (gives value) k t ne = go (call.network 0) s
      where
        go : (network : Network) (m : redis.State) → view (put network m j value).0 t k ≡ view m t k
        go [] m = refl
        go (answered ∷ more) m = laws.set_other m now j k value ttl t (λ q. ne (ap gives q))
        go (lost_before ∷ more) m = go more m
        go (lost_after ∷ more) m =
            go more (redis.set m now j value ttl)
            ∙ laws.set_other m now j k value ttl t (λ q. ne (ap gives q))

    saved_view :
        (id : Text) (t : ℕ) (o : (v : Bytes) → Option Bytes)
        → (st : Saves (random_id (call.random 0)) (json.marshal rec) id)
        → (view (redis.set st.before now id st.value ttl) t id ≡ o st.value)
        → redis_view redis view laws json coding
            (saved (random_id (call.random 0)) (json.marshal rec)).0
            t
            id
          ≡ record_of json (o st.value)
    saved_view id t o st e =
        ap (λ m. redis_view redis view laws json coding m t id) st.state_is ∙ ap (record_of json) e

    saved_kept :
        (id : Text) (t : ℕ)
        → RedisMayKeep rec ttl
        → (saved (random_id (call.random 0)) (json.marshal rec)).1 ≡ gives id
        → t < now + ttl
        → redis_view redis view laws json coding
            (saved (random_id (call.random 0)) (json.marshal rec)).0
            t
            id
          ≡ some rec
    saved_kept id t (ascii, life) e h =
        let st = saves (random_id (call.random 0)) (json.marshal rec) id e in
        saved_view id t some st (laws.set_kept st.before now id st.value ttl t life h)
        ∙ ap kept_record (coding.read_back rec st.value ascii st.written)

    saved_over :
        (id : Text) (t : ℕ)
        → RedisMayKeep rec ttl
        → (saved (random_id (call.random 0)) (json.marshal rec)).1 ≡ gives id
        → now + ttl < t
        → redis_view redis view laws json coding
            (saved (random_id (call.random 0)) (json.marshal rec)).0
            t
            id
          ≡ none
    saved_over id t (ascii, life) e h =
        let st = saves (random_id (call.random 0)) (json.marshal rec) id e in
        saved_view id t (λ v. none) st (laws.set_expired st.before now id st.value ttl t life h)

  -- Over a lawful Redis, and with a JSON coding that reads back records in ASCII, the store in
  -- Redis keeps the contract of a key store, whatever the network loses and the client of Redis sends
  -- again, for records in ASCII and lifetimes of whole seconds: a record that a load yields was
  -- there; a load that is answered leaves nothing, and yields what was there if no answer was lost
  -- before; a save that reports an ID keeps its record until it expires; and neither touches another ID.
  pub redis_key_store-IsKeyStore :
      IsKeyStore
        (redis_key_store redis json)
        (redis_view redis view laws json coding)
        RedisMayUse
        RedisMayKeep
        RedisIsSure
  unfolding redis_load redis_save
  redis_key_store-IsKeyStore = record {
    load_found = λ call now s id rec e.
        load_finds redis view laws json coding now id (call.network 0) s rec e;
    load_read = λ call now s id found sure e.
        load_reads redis view laws json coding now id (call.network 0) s found sure e;
    load_gone = λ call now s id found t e.
        ap (record_of json)
          (load_empties redis view laws json coding now id (call.network 0) s found t e);
    load_other = λ call now s id k t ne.
        ap (record_of json)
          (load_keeps redis view laws json coding now id (call.network 0) s k t ne);
    load_less = λ call now s id t e.
        load_puts_nothing redis view laws json coding now id (call.network 0) s t e;
    save_used = λ call now s rec ttl id e.
        (saves call now s rec ttl (random_id (call.random 0)) (json.marshal rec) id e).drawn;
    save_kept = λ call now s rec ttl id t m e h. saved_kept call now s rec ttl id t m e h;
    save_expired = λ call now s rec ttl id t m e h. saved_over call now s rec ttl id t m e h;
    save_other = λ call now s rec ttl k t ne.
        ap (record_of json)
          (saved_other call now s rec ttl (random_id (call.random 0)) (json.marshal rec) k t ne);
  }
