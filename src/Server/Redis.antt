-- ===== src/Server/Redis.antt =====
-- Redis, as the server uses it: a parameter, since it is another program. A command runs at a time, on
-- the server's data, and atomically; what the network does with it is `Network`.
use key_bank.Base.{
  ℕ, ◌+◌, ◌*◌, ◌≤◌, ◌<◌, ◌≡◌, ◌≢◌, Bool, true, false, List, [], ◌∷◌, Option, none, some, Text,
  Bytes,
}
use key_bank.Js.Number.{decimal}
use key_bank.Server.Go.{Try, fails, gives, second}

pub record Redis : Type 1 where
  pub State : Type 0
  pub set : State → ℕ → Text → Bytes → ℕ → State
  pub set_nx : State → ℕ → Text → Bytes → ℕ → State × Bool
  pub get_del : State → ℕ → Text → State × Option Bytes
  pub incr : State → ℕ → Text → State × Try ℕ
  pub expire : State → ℕ → Text → ℕ → State

-- The client sends a lifetime in whole units; the server asks for whole seconds only.
pub record IsLifetime (ttl : ℕ) : Type 0 where
  pub seconds : ℕ
  pub positive : 1 ≤ seconds
  pub whole : ttl ≡ seconds * second

-- The largest counter.
abbrev pub counter_max : ℕ
counter_max = 9223372036854775807

-- What Redis documents of the commands. `view s t k` is what key `k` holds at time `t`, if no command
-- comes before.
pub record IsLawful (r : Redis) (view : r.State → ℕ → Text → Option Bytes) : Type 0 where
  pub set_kept :
      (s : r.State) (now : ℕ) (k : Text) (v : Bytes) (ttl t : ℕ)
      → IsLifetime ttl
      → t < now + ttl
      → view (r.set s now k v ttl) t k ≡ some v
  pub set_expired :
      (s : r.State) (now : ℕ) (k : Text) (v : Bytes) (ttl t : ℕ)
      → IsLifetime ttl
      → now + ttl < t
      → view (r.set s now k v ttl) t k ≡ none
  pub set_other :
      (s : r.State) (now : ℕ) (k j : Text) (v : Bytes) (ttl t : ℕ)
      → k ≢ j
      → view (r.set s now k v ttl) t j ≡ view s t j
  pub set_nx_free :
      (s : r.State) (now : ℕ) (k : Text) (v : Bytes) (ttl : ℕ)
      → view s now k ≡ none
      → r.set_nx s now k v ttl ≡ (r.set s now k v ttl, true)
  pub set_nx_taken :
      (s : r.State) (now : ℕ) (k : Text) (v w : Bytes) (ttl : ℕ)
      → view s now k ≡ some w
      → r.set_nx s now k v ttl ≡ (s, false)
  pub get_del_read : (s : r.State) (now : ℕ) (k : Text) → (r.get_del s now k).1 ≡ view s now k
  pub get_del_gone :
      (s : r.State) (now : ℕ) (k : Text) (t : ℕ) → view (r.get_del s now k).0 t k ≡ none
  pub get_del_other :
      (s : r.State) (now : ℕ) (k j : Text) (t : ℕ)
      → k ≢ j
      → view (r.get_del s now k).0 t j ≡ view s t j
  pub incr_first :
      (s : r.State) (now : ℕ) (k : Text)
      → view s now k ≡ none
      → ((r.incr s now k).1 ≡ gives 1) × ((t : ℕ) → view (r.incr s now k).0 t k ≡ some (decimal 1))
  -- The time at which the key expires stays as it is.
  pub incr_next :
      (s : r.State) (now : ℕ) (k : Text) (n : ℕ)
      → n < counter_max
      → view s now k ≡ some (decimal n)
      → (r.incr s now k).1 ≡ gives (n + 1)
  pub incr_kept :
      (s : r.State) (now : ℕ) (k : Text) (n t : ℕ)
      → n < counter_max
      → view s now k ≡ some (decimal n)
      → view s t k ≡ some (decimal n)
      → view (r.incr s now k).0 t k ≡ some (decimal (n + 1))
  pub incr_other :
      (s : r.State) (now : ℕ) (k j : Text) (t : ℕ)
      → k ≢ j
      → view (r.incr s now k).0 t j ≡ view s t j
  pub expire_other :
      (s : r.State) (now : ℕ) (k j : Text) (ttl t : ℕ)
      → k ≢ j
      → view (r.expire s now k ttl) t j ≡ view s t j
  pub expire_kept :
      (s : r.State) (now : ℕ) (k : Text) (v : Bytes) (ttl t : ℕ)
      → IsLifetime ttl
      → ((u : ℕ) → view s u k ≡ some v)
      → t < now + ttl
      → view (r.expire s now k ttl) t k ≡ some v
  pub expire_over :
      (s : r.State) (now : ℕ) (k : Text) (ttl t : ℕ)
      → IsLifetime ttl
      → now + ttl < t
      → view (r.expire s now k ttl) t k ≡ none

-- What becomes of one transmission of a command: it is answered, or it is lost on the way there, or its
-- answer is lost on the way back.
pub data Link : Type 0 where
  answered lost_before lost_after : Link

-- The transmissions of a command, as many as the client makes: go-redis sends a command again when it is
-- not answered, three times by default. They count as one moment.
abbrev pub Network : Type 0
Network = List Link

abbrev pub send {ℓ κ} : {S : Type ℓ} {A : Type κ} → Network → (S → S × A) → S → S × Try A
send [] command s = (s, fails)
send (answered ∷ more) command s = let (s', a) = command s in (s', gives a)
send (lost_before ∷ more) command s = send more command s
send (lost_after ∷ more) command s = send more command (command s).0

-- No answer is lost before one comes.
abbrev pub IsPrompt : Network → Type 0
IsPrompt [] = ⊥
IsPrompt (answered ∷ more) = Unit
IsPrompt (lost_before ∷ more) = IsPrompt more
IsPrompt (lost_after ∷ more) = ⊥

-- The command is run.
abbrev pub HasArrived : Network → Type 0
HasArrived [] = ⊥
HasArrived (answered ∷ more) = Unit
HasArrived (lost_before ∷ more) = HasArrived more
HasArrived (lost_after ∷ more) = Unit
