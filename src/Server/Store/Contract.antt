-- ===== src/Server/Store/Contract.antt =====
-- What a key store promises, whatever it is made of.
use key_bank.Base.{ℕ, ◌+◌, ◌<◌, ◌≡◌, ◌≢◌, List, [], ◌∷◌, Option, none, some, Text}
use key_bank.Server.Go.{gives}
use key_bank.Server.Store.{Record, KeyStore}

-- `view s t id` is the record that is kept under `id` at time `t`, and `MayUse call id` says that a save
-- may store under `id`, even one that reports an error. `IsStorable rec ttl` says which
-- records and lifetimes the promise is about, and `IsSure call` that the call loses no answer.
pub record IsKeyStore (ks : KeyStore) (view : ks.State → ℕ → Text → Option Record)
    (MayUse : ks.Call → Text → Type 0) (IsStorable : Record → ℕ → Type 0)
    (IsSure : ks.Call → Type 0) : Type 0 where
  -- What is delivered was there; and a call that loses no answer tells what was there.
  pub load_found :
      (call : ks.Call) (now : ℕ) (s : ks.State) (id : Text) (rec : Record)
      → (ks.load call now s id).1 ≡ gives (some rec)
      → view s now id ≡ some rec
  pub load_read :
      (call : ks.Call) (now : ℕ) (s : ks.State) (id : Text) (found : Option Record)
      → IsSure call
      → (ks.load call now s id).1 ≡ gives found
      → found ≡ view s now id
  pub load_gone :
      (call : ks.Call) (now : ℕ) (s : ks.State) (id : Text) (found : Option Record) (t : ℕ)
      → (ks.load call now s id).1 ≡ gives found
      → view (ks.load call now s id).0 t id ≡ none
  pub load_other :
      (call : ks.Call) (now : ℕ) (s : ks.State) (id k : Text) (t : ℕ)
      → id ≢ k
      → view (ks.load call now s id).0 t k ≡ view s t k
  -- Also a load that fails puts nothing there.
  pub load_less :
      (call : ks.Call) (now : ℕ) (s : ks.State) (id : Text) (t : ℕ)
      → view s t id ≡ none
      → view (ks.load call now s id).0 t id ≡ none
  pub save_used :
      (call : ks.Call) (now : ℕ) (s : ks.State) (rec : Record) (ttl : ℕ) (id : Text)
      → (ks.save call now s rec ttl).1 ≡ gives id
      → MayUse call id
  pub save_kept :
      (call : ks.Call) (now : ℕ) (s : ks.State) (rec : Record) (ttl : ℕ) (id : Text) (t : ℕ)
      → IsStorable rec ttl
      → (ks.save call now s rec ttl).1 ≡ gives id
      → t < now + ttl
      → view (ks.save call now s rec ttl).0 t id ≡ some rec
  pub save_expired :
      (call : ks.Call) (now : ℕ) (s : ks.State) (rec : Record) (ttl : ℕ) (id : Text) (t : ℕ)
      → IsStorable rec ttl
      → (ks.save call now s rec ttl).1 ≡ gives id
      → now + ttl < t
      → view (ks.save call now s rec ttl).0 t id ≡ none
  pub save_other :
      (call : ks.Call) (now : ℕ) (s : ks.State) (rec : Record) (ttl : ℕ) (k : Text) (t : ℕ)
      → (MayUse call k → ⊥)
      → view (ks.save call now s rec ttl).0 t k ≡ view s t k

-- The calls of all clients, in the order in which the store serves them.
pub data Op (ks : KeyStore) : Type 0 where
  loads : ks.Call → ℕ → Text → Op ks
  saves : ks.Call → ℕ → Record → ℕ → Op ks

module _ (ks : KeyStore) where
  unfoldable pub serve : ks.State → Op ks → ks.State
  serve s (loads call now id) = (ks.load call now s id).0
  serve s (saves call now rec ttl) = (ks.save call now s rec ttl).0

  unfoldable pub serve_all : ks.State → List (Op ks) → ks.State
  serve_all s [] = s
  serve_all s (op ∷ ops) = serve_all (serve s op) ops
