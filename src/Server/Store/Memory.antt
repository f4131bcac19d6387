-- ===== src/Server/Store/Memory.antt =====
-- store.go: the store in memory, against the contract of a key store.
use key_bank.Base.{
  ℕ, ◌+◌, ◌<◌, ◌≡◌, ◌≢◌, ◌∙◌, refl, sym, ap, subst, Option, none, some, Text, Bytes, arith,
}
use key_bank.Js.Url.Equality.{text_eq_refl}
use key_bank.Server.Go.{Try, fails, gives}
use key_bank.Server.Table.{Table, find, erase, put, find-erase, find-put, text_ne}
use key_bank.Server.Store.{
  Record, random_id, MemEntry, mem_saved, mem_save, unexpired, mem_load, mem_key_store,
}
use key_bank.Server.Store.Contract.{IsKeyStore}

abbrev pub mem_view : Table MemEntry → ℕ → Text → Option Record
mem_view entries t id = unexpired t (find id entries)

abbrev pub MemMayUse : Option Bytes → Text → Type 0
MemMayUse random id = random_id random ≡ gives id

abbrev pub AnyCall : Option Bytes → Type 0
AnyCall random = Unit

abbrev pub AnyRecord : Record → ℕ → Type 0
AnyRecord rec ttl = Unit

find-erase_same : (id : Text) (entries : Table MemEntry) → find id (erase id entries) ≡ none
find-erase_same id entries = find-erase id id entries ∙ rw (text_eq_refl id) refl

find-erase_other :
    (id k : Text) (entries : Table MemEntry) → id ≢ k → find k (erase id entries) ≡ find k entries
find-erase_other id k entries ne = find-erase id k entries ∙ rw (text_ne id k ne) refl

find-put_same :
    (id : Text) (e : MemEntry) (entries : Table MemEntry) → find id (put id e entries) ≡ some e
find-put_same id e entries = find-put id id e entries ∙ rw (text_eq_refl id) refl

find-put_other :
    (id k : Text) (e : MemEntry) (entries : Table MemEntry)
    → id ≢ k
    → find k (put id e entries) ≡ find k entries
find-put_other id k e entries ne = find-put id k e entries ∙ rw (text_ne id k ne) refl

same_id : {a b : Text} → gives a ≡ gives b → a ≡ b
same_id h = ground arith

gives_same : {a b : Option Record} → gives a ≡ gives b → a ≡ b
gives_same h = ground arith

-- The saved entry, whichever way the ID came about.
module _ (now : ℕ) (entries : Table MemEntry) (rec : Record) (ttl : ℕ) where
  abbrev entry : MemEntry
  entry = record { rec = rec; expiry = now + ttl }

  saved_id :
      (r : Try Text) (id : Text) → (mem_saved r now entries rec ttl).1 ≡ gives id → r ≡ gives id
  saved_id fails id e = e
  saved_id (gives j) id e = e

  saved_find :
      (r : Try Text) (id : Text)
      → r ≡ gives id
      → find id (mem_saved r now entries rec ttl).0 ≡ some entry
  saved_find r id e =
      subst (λ r. find id (mem_saved r now entries rec ttl).0 ≡ some entry) (sym e)
        (find-put_same id entry entries)

  saved_other :
      (r : Try Text) (k : Text)
      → (r ≡ gives k → ⊥)
      → find k (mem_saved r now entries rec ttl).0 ≡ find k entries
  saved_other fails k ne = refl
  saved_other (gives j) k ne = find-put_other j k entry entries (λ q. ne (ap gives q))

  kept : (t : ℕ) → t < now + ttl → unexpired t (some entry) ≡ some rec
  kept t h = ground arith

  over : (t : ℕ) → now + ttl < t → unexpired t (some entry) ≡ none
  over t h = ground arith

-- The store in memory keeps the contract of a key store, for any call, record and lifetime: a load yields
-- what is there unless it has expired, and takes it out either way; a save keeps its record until
-- it expires; and neither touches another ID.
pub mem_key_store-IsKeyStore : IsKeyStore mem_key_store mem_view MemMayUse AnyRecord AnyCall
unfolding mem_load mem_save
mem_key_store-IsKeyStore = record {
  load_found = λ call now s id rec e. gives_same e;
  load_read = λ call now s id found sure e. sym (gives_same e);
  load_gone = λ call now s id found t e. ap (unexpired t) (find-erase_same id s);
  load_other = λ call now s id k t ne. ap (unexpired t) (find-erase_other id k s ne);
  load_less = λ call now s id t e. ap (unexpired t) (find-erase_same id s);
  save_used = λ call now s rec ttl id e. saved_id now s rec ttl (random_id call) id e;
  save_kept = λ call now s rec ttl id t m e h.
      ap (unexpired t) (
        saved_find now s rec ttl (random_id call) id (saved_id now s rec ttl (random_id call) id e))
      ∙ kept now s rec ttl t h;
  save_expired = λ call now s rec ttl id t m e h.
      ap (unexpired t) (
        saved_find now s rec ttl (random_id call) id (saved_id now s rec ttl (random_id call) id e))
      ∙ over now s rec ttl t h;
  save_other = λ call now s rec ttl k t ne.
      ap (unexpired t) (saved_other now s rec ttl (random_id call) k ne);
}
