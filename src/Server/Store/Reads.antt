-- ===== src/Server/Store/Reads.antt =====
-- store.go: what is in Redis, and what a load reads of it.
use key_bank.Base.{
  [], ◌∷◌, sym, ℕ, ◌<◌, ◌≡◌, ◌≢◌, ◌∙◌, refl, ap, Option, none, some, Text, Bytes, All, arith,
}
use key_bank.Server.Go.{Try, fails, gives}
use key_bank.Server.Redis.{
  Redis, IsLawful, Network, IsPrompt, answered, lost_before, lost_after, send,
}
use key_bank.Server.Store.{Record, Coding, read_record, decoded}

-- A text of ASCII characters, as PEM is.
abbrev pub IsAscii : Text → Type 0
IsAscii = All (λ c. c < 128)

-- What `encoding/json` documents: a record is read back from its own text, if its strings are UTF-8.
-- The time comes back because `marshal` fails where it cannot be written.
pub record IsCoding (json : Coding) : Type 0 where
  pub read_back :
      (rec : Record) (b : Bytes)
      → IsAscii rec.priv_pem
      → json.marshal rec ≡ gives b
      → json.unmarshal b ≡ gives rec

abbrev pub kept_record : Try Record → Option Record
kept_record fails = none
kept_record (gives rec) = some rec

abbrev pub record_of : Coding → Option Bytes → Option Record
record_of json none = none
record_of json (some value) = kept_record (json.unmarshal value)

-- What is read is what was there, and a text that is no record is an error.
decoded-gives :
    (json : Coding) (o : Option Bytes) (found : Option Record)
    → decoded json (gives o) ≡ gives found
    → found ≡ record_of json o
decoded-gives json none found e = ground arith
decoded-gives json (some value) found e = go (json.unmarshal value) e
  where
    go : (r : Try Record) → read_record r ≡ gives found → found ≡ kept_record r
    go fails e = cc
    go (gives rec) e = ground arith

module _ (redis : Redis) (view : redis.State → ℕ → Text → Option Bytes) (laws : IsLawful redis view)
    (json : Coding) (coding : IsCoding json) where
  abbrev pub redis_view : redis.State → ℕ → Text → Option Record
  redis_view s t id = record_of json (view s t id)

  module _ (now : ℕ) (id : Text) where
    abbrev pub command : redis.State → redis.State × Option Bytes
    command m = redis.get_del m now id

    -- The state and the answer of a load, by what becomes of the command.
    abbrev pub state_after : Network → redis.State → redis.State
    state_after network s = (send network command s).0

    abbrev pub answer_of : Network → redis.State → Try (Option Record)
    answer_of network s = decoded json (send network command s).1

    pub load_reads :
        (network : Network) (s : redis.State) (found : Option Record)
        → IsPrompt network
        → answer_of network s ≡ gives found
        → found ≡ redis_view s now id
    load_reads [] s found p e = absurd p
    load_reads (answered ∷ more) s found p e =
        decoded-gives json (redis.get_del s now id).1 found e
        ∙ ap (record_of json) (laws.get_del_read s now id)
    load_reads (lost_before ∷ more) s found p e = load_reads more s found p e
    load_reads (lost_after ∷ more) s found p e = absurd p

    -- Once the key is gone, nothing is found.
    pub load_finds :
        (network : Network) (s : redis.State) (rec : Record)
        → answer_of network s ≡ gives (some rec)
        → redis_view s now id ≡ some rec
    load_finds [] s rec e = cc
    load_finds (answered ∷ more) s rec e = sym (load_reads (answered ∷ more) s (some rec) tt e)
    load_finds (lost_before ∷ more) s rec e = load_finds more s rec e
    load_finds (lost_after ∷ more) s rec e = absurd (
        clash (
          sym (load_finds more (redis.get_del s now id).0 rec e)
          ∙ ap (record_of json) (laws.get_del_gone s now id now)))
      where
        clash : some rec ≡ none → ⊥
        clash q = cc

    pub load_empties :
        (network : Network) (s : redis.State) (found : Option Record) (t : ℕ)
        → answer_of network s ≡ gives found
        → view (state_after network s) t id ≡ none
    load_empties [] s found t e = cc
    load_empties (answered ∷ more) s found t e = laws.get_del_gone s now id t
    load_empties (lost_before ∷ more) s found t e = load_empties more s found t e
    load_empties (lost_after ∷ more) s found t e =
        load_empties more (redis.get_del s now id).0 found t e

    pub load_keeps :
        (network : Network) (s : redis.State) (k : Text) (t : ℕ)
        → id ≢ k
        → view (state_after network s) t k ≡ view s t k
    load_keeps [] s k t ne = refl
    load_keeps (answered ∷ more) s k t ne = laws.get_del_other s now id k t ne
    load_keeps (lost_before ∷ more) s k t ne = load_keeps more s k t ne
    load_keeps (lost_after ∷ more) s k t ne =
        load_keeps more (redis.get_del s now id).0 k t ne ∙ laws.get_del_other s now id k t ne

    pub load_puts_nothing :
        (network : Network) (s : redis.State) (t : ℕ)
        → redis_view s t id ≡ none
        → redis_view (state_after network s) t id ≡ none
    load_puts_nothing [] s t e = e
    load_puts_nothing (answered ∷ more) s t e = ap (record_of json) (laws.get_del_gone s now id t)
    load_puts_nothing (lost_before ∷ more) s t e = load_puts_nothing more s t e
    load_puts_nothing (lost_after ∷ more) s t e =
        load_puts_nothing more (redis.get_del s now id).0 t
          (ap (record_of json) (laws.get_del_gone s now id t))
