-- ===== src/Server/Limiter/Script.antt =====
-- What one run of the limiter's script does to a counter.
use key_bank.Base.{
  ℕ, ◌+◌, ◌*◌, ◌≤◌, ◌<◌, ◌≡◌, refl, sym, ap, subst, false, Option, none, some, Text, Bytes, ◌==◌,
  arith, ne→==,
}
use key_bank.Js.Number.{decimal}
use key_bank.Server.Go.{Try, fails, gives, second}
use key_bank.Server.Redis.{Redis, IsLifetime, counter_max, IsLawful}
use key_bank.Server.Limiter.{counter_key, counted, incr_script}

module _ (redis : Redis) (view : redis.State → ℕ → Text → Option Bytes) (laws : IsLawful redis view)
    (bucket : Text) (limit : ℕ) (ip : Text) where
  -- The counter stands at `n` until the end of its window.
  abbrev pub Counts : ℕ → ℕ → redis.State → Type 0
  Counts n end s = (t : ℕ) → t < end → view s t (counter_key bucket ip) ≡ some (decimal n)

  abbrev pub key : Text
  key = counter_key bucket ip

  abbrev pub after : redis.State → ℕ → redis.State
  after s now = (incr_script redis s now key).0

  -- What the script does to a counter that runs.
  pub script_next :
      (s : redis.State) (n end now : ℕ)
      → 1 ≤ n
      → n < counter_max
      → now < end
      → Counts n end s
      → ((incr_script redis s now key).1 ≡ gives (n + 1)) × Counts (n + 1) end (after s now)
  unfolding incr_script
  script_next s n end now pos small inside c =
      let e : (redis.incr s now key).1 ≡ gives (n + 1) =
        laws.incr_next s now key n small (c now inside) in
      go (redis.incr s now key).1 e
        (λ t h. laws.incr_kept s now key n t small (c now inside) (c t h))
    where
      go :
          (r : Try ℕ)
          → r ≡ gives (n + 1)
          → Counts (n + 1) end (redis.incr s now key).0
          → ((counted redis now key ((redis.incr s now key).0, r)).1 ≡ gives (n + 1))
            × Counts (n + 1) end (counted redis now key ((redis.incr s now key).0, r)).0
      go fails e k = cc
      go (gives m) e k =
          let m_is : m ≡ n + 1 = ground arith in
          let old : (m == 1) ≡ false = ne→== m 1 (λ q. absurd (omega arith)) in
          (ap gives m_is, rw old k)

  pub an_hour : IsLifetime (3600 * second)
  an_hour = record { seconds = 3600; positive = omega arith; whole = refl }

  -- And to one that does not exist: it starts a window.
  pub script_first :
      (s : redis.State) (now : ℕ)
      → view s now key ≡ none
      → ((incr_script redis s now key).1 ≡ gives 1) × Counts 1 (now + 3600 * second) (after s now)
  unfolding incr_script
  script_first s now h = let (e, k) = laws.incr_first s now key h in go (redis.incr s now key).1 e k
    where
      go :
          (r : Try ℕ)
          → r ≡ gives 1
          → ((t : ℕ) → view (redis.incr s now key).0 t key ≡ some (decimal 1))
          → ((counted redis now key ((redis.incr s now key).0, r)).1 ≡ gives 1)
            × Counts 1 (now + 3600 * second) (counted redis now key ((redis.incr s now key).0, r)).0
      go fails e k = cc
      go (gives m) e k =
          let m_is : m ≡ 1 = ground arith in
          (
            ap gives m_is,
            subst
                (λ m.
                  Counts 1 (now + 3600 * second)
                    (counted redis now key ((redis.incr s now key).0, gives m)).0)
                (sym m_is)
                (λ t h.
                  laws.expire_kept (redis.incr s now key).0 now key (decimal 1) (3600 * second) t
                    an_hour k h),
          )
