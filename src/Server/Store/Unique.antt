-- ===== src/Server/Store/Unique.antt =====
-- The two ways to save a key in Redis: internal/store/store.go takes a free ID only, store.go takes any.
use key_bank.Base.{
  ℕ, zero, suc, ◌+◌, ◌≡◌, ◌∙◌, refl, sym, ap, subst, Bool, true, false, [], ◌∷◌, Option, none, some,
  Text, Bytes, ◌<◌,
}
use key_bank.Server.Go.{Try, fails, gives}
use key_bank.Server.Redis.{
  Redis, IsLifetime, IsLawful, Network, HasArrived, answered, lost_before, lost_after, send,
}
use key_bank.Server.Store.{
  Record, random_id, Coding, RedisCall, stored, redis_save, tried, attempt, attempts, marshalled,
  save_nx,
}

module _ (redis : Redis) (view : redis.State → ℕ → Text → Option Bytes) (laws : IsLawful redis view)
    (json : Coding) where
  -- The attempts that are left when one has found its ID taken.
  attempts_next :
      (left : ℕ) (call : RedisCall) (n now : ℕ) (payload : Bytes) (ttl : ℕ) (s : redis.State)
      → attempts redis json (suc left) call n now payload ttl s
        ≡ attempt redis json call n now payload ttl s
            (random_id (call.random n))
            (attempts redis json left call (suc n) now payload ttl)
  unfolding attempts
  attempts_next left call n now payload ttl s = refl

  module _ (now ttl : ℕ) (payload : Bytes) (k : Text) (v : Bytes) where
    -- What is there now stays, for as long as it would have.
    abbrev Keeps : redis.State → redis.State → Type 0
    Keeps s s' = (t : ℕ) → view s' t k ≡ view s t k

    set_nx-Keeps :
        (s : redis.State) (id : Text)
        → view s now k ≡ some v
        → Keeps s (redis.set_nx s now id payload ttl).0
    set_nx-Keeps s id held = go (view s now id) refl
      where
        clash : none ≡ some v → ⊥
        clash q = cc

        go : (o : Option Bytes) → view s now id ≡ o → Keeps s (redis.set_nx s now id payload ttl).0
        go none e t =
            ap (λ r. view r.0 t k) (laws.set_nx_free s now id payload ttl e)
            ∙ laws.set_other s now id k payload ttl t
                (λ q. clash (sym e ∙ ap (view s now) q ∙ held))
        go (some w) e t = ap (λ r. view r.0 t k) (laws.set_nx_taken s now id payload w ttl e)

    sent-Keeps :
        (network : Network) (s : redis.State) (id : Text)
        → view s now k ≡ some v
        → Keeps s (send network (λ m. redis.set_nx m now id payload ttl) s).0
    sent-Keeps [] s id held = λ t. refl
    sent-Keeps (answered ∷ more) s id held = set_nx-Keeps s id held
    sent-Keeps (lost_before ∷ more) s id held = sent-Keeps more s id held
    sent-Keeps (lost_after ∷ more) s id held =
        let first = set_nx-Keeps s id held in
        λ t. sent-Keeps more (redis.set_nx s now id payload ttl).0 id (first now ∙ held) t ∙ first t

    tried-Keeps :
        (s : redis.State) (id : Text) (r : redis.State × Try Bool)
        (again : redis.State → redis.State × Try Text)
        → Keeps s r.0
        → Keeps r.0 (again r.0).0
        → Keeps s (tried redis json id r again).0
    tried-Keeps s id (s', fails) again h g = h
    tried-Keeps s id (s', gives true) again h g = h
    tried-Keeps s id (s', gives false) again h g = λ t. g t ∙ h t

    attempts-Keeps :
        (left : ℕ) (call : RedisCall) (n : ℕ) (s : redis.State)
        → view s now k ≡ some v
        → Keeps s (attempts redis json left call n now payload ttl s).0
    attempts-Keeps zero call n s held = λ t. unfold attempts in refl
    attempts-Keeps (suc left) call n s held =
        subst (λ r. Keeps s r.0) (sym (attempts_next left call n now payload ttl s))
          (go (random_id (call.random n)) (λ s' h. attempts-Keeps left call (suc n) s' h))
      where
        go :
            (r : Try Text)
            → ((s' : redis.State)
                → view s' now k ≡ some v
                → Keeps s' (attempts redis json left call (suc n) now payload ttl s').0)
            → Keeps s
                (attempt redis json call n now payload ttl s r
                  (attempts redis json left call (suc n) now payload ttl)).0
        go fails rest = λ t. refl
        go (gives id) rest =
            let sent = sent-Keeps (call.network n) s id held in
            tried-Keeps s id (send (call.network n) (λ m. redis.set_nx m now id payload ttl) s) _
              sent (rest _ (sent now ∙ held))

  -- Over a lawful Redis, a save of internal/store leaves every key as it is that holds something
  -- when it comes, whichever IDs it draws and whatever the network loses.
  pub save_nx-keeps :
      (call : RedisCall) (now : ℕ) (s : redis.State) (rec : Record) (ttl : ℕ) (k : Text) (v : Bytes)
      (t : ℕ)
      → view s now k ≡ some v
      → view (save_nx redis json call now s rec ttl).0 t k ≡ view s t k
  unfolding save_nx
  save_nx-keeps call now s rec ttl k v t held = go (json.marshal rec)
    where
      go : (r : Try Bytes) → view (marshalled redis json call now s ttl r).0 t k ≡ view s t k
      go fails = refl
      go (gives payload) = attempts-Keeps now ttl payload k v 3 call 0 s held t

  module _ (now ttl t : ℕ) (payload : Bytes) (id : Text) (life : IsLifetime ttl)
      (early : t < now + ttl) where
    abbrev put : Network → redis.State → redis.State × Try Text
    put network m =
        stored redis json id (send network (λ m. (redis.set m now id payload ttl, tt)) m)

    -- To write the text once more changes nothing.
    put_stays :
        (network : Network) (m : redis.State)
        → view m t id ≡ some payload
        → view (put network m).0 t id ≡ some payload
    put_stays [] m e = e
    put_stays (answered ∷ more) m e = laws.set_kept m now id payload ttl t life early
    put_stays (lost_before ∷ more) m e = put_stays more m e
    put_stays (lost_after ∷ more) m e =
        put_stays more (redis.set m now id payload ttl)
          (laws.set_kept m now id payload ttl t life early)

    put_arrives :
        (network : Network) (m : redis.State)
        → HasArrived network
        → view (put network m).0 t id ≡ some payload
    put_arrives [] m h = absurd h
    put_arrives (answered ∷ more) m h = laws.set_kept m now id payload ttl t life early
    put_arrives (lost_before ∷ more) m h = put_arrives more m h
    put_arrives (lost_after ∷ more) m h =
        put_stays more (redis.set m now id payload ttl)
          (laws.set_kept m now id payload ttl t life early)

  -- Over a lawful Redis, let a save of store.go draw an ID and have a lifetime of whole seconds,
  -- and its command reach Redis, answered or not, once or more often. Then until that lifetime ends
  -- the ID holds the new record's text, whatever it held before.
  pub redis_save-replaces :
      (call : RedisCall) (now : ℕ) (s : redis.State) (rec : Record) (ttl : ℕ) (id : Text)
      (payload : Bytes) (t : ℕ)
      → random_id (call.random 0) ≡ gives id
      → json.marshal rec ≡ gives payload
      → HasArrived (call.network 0)
      → IsLifetime ttl
      → t < now + ttl
      → view (redis_save redis json call now s rec ttl).0 t id ≡ some payload
  unfolding redis_save
  redis_save-replaces call now s rec ttl id payload t drawn coded reached life early =
      rw (drawn, coded) (put_arrives now ttl t payload id life early (call.network 0) s reached)
