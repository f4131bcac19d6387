-- ===== src/Examples/MiniRedis.antt =====
-- A small Redis, which has the documented behaviour.
pub mod Lawful
use key_bank.Base.{
  ℕ, ◌+◌, Bool, true, false, ◌&&◌, Option, none, some, Text, Bytes, leb, ltb, if◌then◌else◌,
}
use key_bank.Js.Number.{decimal}
use key_bank.Js.Number.RoundTrip.{value}
use key_bank.Js.Url.{text_eq}
use key_bank.Server.Go.{Try, fails, gives}
use key_bank.Server.Redis.{Redis, counter_max}

-- A key is missing, or it holds a value until a time, if there is one.
pub data Cell : Type 0 where
  missing : Cell
  holding : Bytes → Option ℕ → Cell

abbrev pub is_alive : ℕ → Option ℕ → Bool
is_alive t none = true
is_alive t (some end) = leb t end

abbrev pub seen : ℕ → Cell → Option Bytes
seen t missing = none
seen t (holding v end) = if is_alive t end then some v else none

abbrev pub Cells : Type 0
Cells = Text → Cell

abbrev pub mini_view : Cells → ℕ → Text → Option Bytes
mini_view s t k = seen t (s k)

abbrev pub at_key : Text → Cell → Cells → Cells
at_key k c s j = if text_eq k j then c else s j

abbrev pub set_nx_from : Cells → ℕ → Text → Bytes → ℕ → Option Bytes → Cells × Bool
set_nx_from s now k v ttl none = (at_key k (holding v (some (now + ttl))) s, true)
set_nx_from s now k v ttl (some w) = (s, false)

abbrev pub counted_up : Bytes → Option ℕ → Cell × Try ℕ
counted_up v end =
    if text_eq v (decimal (value 0 v)) && ltb (value 0 v) counter_max
    then (holding (decimal (value 0 v + 1)) end, gives (value 0 v + 1))
    else (holding v end, fails)

abbrev pub incremented : ℕ → Cell → Cell × Try ℕ
incremented now missing = (holding (decimal 1) none, gives 1)
incremented now (holding v end) =
    if is_alive now end then counted_up v end else (holding (decimal 1) none, gives 1)

abbrev pub ended : ℕ → ℕ → Cell → Cell
ended now ttl missing = missing
ended now ttl (holding v end) = if is_alive now end then holding v (some (now + ttl)) else missing

abbrev pub mini_redis : Redis
mini_redis = record {
  State = Cells;
  set = λ s now k v ttl. at_key k (holding v (some (now + ttl))) s;
  set_nx = λ s now k v ttl. set_nx_from s now k v ttl (mini_view s now k);
  get_del = λ s now k. (at_key k missing s, mini_view s now k);
  incr = λ s now k. (at_key k (incremented now (s k)).0 s, (incremented now (s k)).1);
  expire = λ s now k ttl. at_key k (ended now ttl (s k)) s;
}
