-- ===== src/Examples/MiniRedis/Lawful.antt =====
-- The laws of the small Redis.
use key_bank.Base.{
  ℕ, ◌+◌, ◌<◌, ◌≡◌, ◌≢◌, ◌∙◌, refl, sym, ap, Bool, true, false, Option, none, some, Text, Bytes,
  if◌then◌else◌, arith, Bool-cases, inl, inr, lt→ltb,
}
use key_bank.Js.Number.{decimal}
use key_bank.Js.Number.RoundTrip.{value-decimal}
use key_bank.Js.Url.Equality.{text_eq_refl}
use key_bank.Server.Go.{gives}
use key_bank.Server.Table.{text_ne}
use key_bank.Server.Redis.{IsLawful, counter_max}
use key_bank.Examples.MiniRedis.{
  Cell, missing, holding, is_alive, seen, Cells, mini_view, at_key, set_nx_from, incremented, ended,
  mini_redis,
}

same : (k : Text) (c : Cell) (s : Cells) (t : ℕ) → mini_view (at_key k c s) t k ≡ seen t c
same k c s t = rw (text_eq_refl k) refl

other :
    (k j : Text) (c : Cell) (s : Cells) (t : ℕ)
    → k ≢ j
    → mini_view (at_key k c s) t j ≡ mini_view s t j
other k j c s t ne = rw (text_ne k j ne) refl

until : (v : Bytes) (end t : ℕ) → t < end → seen t (holding v (some end)) ≡ some v
until v end t h = ground arith

past : (v : Bytes) (end t : ℕ) → end < t → seen t (holding v (some end)) ≡ none
past v end t h = ground arith

-- What a cell that is seen holds.
record Holds (t : ℕ) (c : Cell) (v : Bytes) : Type 0 where
  until_when : Option ℕ
  cell_is : c ≡ holding v until_when
  alive : is_alive t until_when ≡ true

holds : (t : ℕ) (c : Cell) (v : Bytes) → seen t c ≡ some v → Holds t c v
holds t missing v e = cc
holds t (holding w end) v e = elim (Bool-cases (is_alive t end)) [
  | inl live ↦
      let w_is : w ≡ v = go live e in
      record { until_when = end; cell_is = ap (λ w. holding w end) w_is; alive = live }
  | inr dead ↦ absurd (gone dead e)
]
  where
    go : is_alive t end ≡ true → (if is_alive t end then some w else none) ≡ some v → w ≡ v
    go live e = ground arith

    gone : is_alive t end ≡ false → (if is_alive t end then some w else none) ≡ some v → ⊥
    gone dead e = ground arith

first_count :
    (now : ℕ) (c : Cell)
    → seen now c ≡ none
    → incremented now c ≡ (holding (decimal 1) none, gives 1)
first_count now missing e = refl
first_count now (holding v end) e = elim (Bool-cases (is_alive now end)) [
  | inl live ↦ absurd (gone live e)
  | inr dead ↦ rw dead refl
]
  where
    gone : is_alive now end ≡ true → (if is_alive now end then some v else none) ≡ none → ⊥
    gone live e = ground arith

next_count :
    (now n : ℕ) (c : Cell) (h : Holds now c (decimal n))
    → n < counter_max
    → incremented now c ≡ (holding (decimal (n + 1)) h.until_when, gives (n + 1))
next_count now n c h small =
    ap (incremented now) h.cell_is
    ∙ rw h.alive (rw (value-decimal n, text_eq_refl (decimal n), lt→ltb n counter_max small) refl)

ended_over : (now ttl t : ℕ) (c : Cell) → now + ttl < t → seen t (ended now ttl c) ≡ none
ended_over now ttl t missing h = refl
ended_over now ttl t (holding v end) h = elim (Bool-cases (is_alive now end)) [
  | inl live ↦ rw live (past v (now + ttl) t h)
  | inr dead ↦ rw dead refl
]

ended_kept :
    (now ttl t : ℕ) (c : Cell) (v : Bytes)
    → seen now c ≡ some v
    → t < now + ttl
    → seen t (ended now ttl c) ≡ some v
ended_kept now ttl t c v e h =
    let held = holds now c v e in
    ap (λ c. seen t (ended now ttl c)) held.cell_is ∙ rw held.alive (until v (now + ttl) t h)

pub mini_redis-IsLawful : IsLawful mini_redis mini_view
mini_redis-IsLawful = record {
  set_kept =
      λ s now k v ttl t life h. same k (holding v (some (now + ttl))) s t ∙ until v (now + ttl) t h;
  set_expired =
      λ s now k v ttl t life h. same k (holding v (some (now + ttl))) s t ∙ past v (now + ttl) t h;
  set_other = λ s now k j v ttl t ne. other k j (holding v (some (now + ttl))) s t ne;
  set_nx_free = λ s now k v ttl e. ap (set_nx_from s now k v ttl) e;
  set_nx_taken = λ s now k v w ttl e. ap (set_nx_from s now k v ttl) e;
  get_del_read = λ s now k. refl;
  get_del_gone = λ s now k t. same k missing s t;
  get_del_other = λ s now k j t ne. other k j missing s t ne;
  incr_first = λ s now k e.
      let first = first_count now (s k) e in
      (ap (λ r. r.1) first, λ t. same k (incremented now (s k)).0 s t ∙ ap (λ r. seen t r.0) first);
  incr_next = λ s now k n small e.
      ap (λ r. r.1) (next_count now n (s k) (holds now (s k) (decimal n) e) small);
  incr_kept = λ s now k n t small e e'. kept s now k n t small e e';
  incr_other = λ s now k j t ne. other k j (incremented now (s k)).0 s t ne;
  expire_other = λ s now k j ttl t ne. other k j (ended now ttl (s k)) s t ne;
  expire_kept = λ s now k v ttl t life e h.
      same k (ended now ttl (s k)) s t ∙ ended_kept now ttl t (s k) v (e now) h;
  expire_over =
      λ s now k ttl t life h. same k (ended now ttl (s k)) s t ∙ ended_over now ttl t (s k) h;
}
  where
    kept :
        (s : Cells) (now : ℕ) (k : Text) (n t : ℕ)
        → n < counter_max
        → mini_view s now k ≡ some (decimal n)
        → mini_view s t k ≡ some (decimal n)
        → mini_view (at_key k (incremented now (s k)).0 s) t k ≡ some (decimal (n + 1))
    kept s now k n t small e e' =
        let held = holds now (s k) (decimal n) e in
        same k (incremented now (s k)).0 s t
        ∙ ap (λ r. seen t r.0) (next_count now n (s k) held small)
        ∙ rw (still held) refl
      where
        still : (held : Holds now (s k) (decimal n)) → is_alive t held.until_when ≡ true
        still held = go (is_alive t held.until_when) (sym (ap (seen t) held.cell_is) ∙ e')
          where
            go : (b : Bool) → (if b then some (decimal n) else none) ≡ some (decimal n) → b ≡ true
            go true e = refl
            go false e = cc
