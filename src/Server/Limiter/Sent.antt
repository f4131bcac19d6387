-- ===== src/Server/Limiter/Sent.antt =====
-- What a request does to its client's counter, however often its script is sent.
use key_bank.Base.{
  ℕ, zero, suc, ◌+◌, ◌*◌, ◌≤◌, ◌<◌, ◌≡◌, ◌∙◌, sym, ap, subst, true, [], ◌∷◌, Option, none, Text,
  Bytes, length, leb, arith,
}
use key_bank.Server.Go.{Try, gives, second}
use key_bank.Server.Redis.{
  Redis, counter_max, IsLawful, Network, answered, lost_before, lost_after, send, IsPrompt,
}
use key_bank.Server.Limiter.{counter_key, incr_script, reply_of, within}
use key_bank.Server.Limiter.Script.{Counts, script_next, script_first}

module _ (redis : Redis) (view : redis.State → ℕ → Text → Option Bytes) (laws : IsLawful redis view)
    (bucket : Text) (limit : ℕ) (ip : Text) (start : ℕ) where
  abbrev pub hour_end : ℕ
  hour_end = start + 3600 * second

  -- The counter stands at `n` for the hour; at 0 there is none.
  abbrev pub Stands : ℕ → redis.State → Type 0
  Stands zero s = (t : ℕ) → view s t (counter_key bucket ip) ≡ none
  Stands (suc n) s = Counts redis view laws bucket limit ip (suc n) hour_end s

  module _ (now : ℕ) (inside : (start ≤ now) × (now < start + 3600 * second)) where
    abbrev pub script : redis.State → redis.State × Try ℕ
    script m = incr_script redis m now (counter_key bucket ip)

    -- The script counts one more.
    script_counts :
        (n : ℕ) (s : redis.State)
        → n < counter_max
        → Stands n s
        → ((script s).1 ≡ gives (suc n)) × Stands (suc n) (script s).0
    script_counts zero s small stands =
        let (said, c) = script_first redis view laws bucket limit ip s now (stands now) in
        (said, λ t early. c t (omega (arith, inside.0)))
    script_counts (suc n) s small stands =
        subst
          (λ m.
            ((script s).1 ≡ gives m)
            × Counts redis view laws bucket limit ip m hour_end (script s).0)
          (omega arith)
          (script_next redis view laws bucket limit ip s (suc n) hour_end now (omega arith) small
            inside.1 stands)

    abbrev pub PassesWith : redis.State × Try (Try ℕ) → Type 0
    PassesWith o = within limit (reply_of o.1) ≡ true

    -- It counts no more than there are transmissions, and a request that passes has been counted, within
    -- the limit.
    pub send_counts :
        (network : Network) (n : ℕ) (s : redis.State)
        → n + length network ≤ counter_max
        → Stands n s
        → (m : ℕ) × (n ≤ m)
          × (m ≤ n + length network)
          × Stands m (send network script s).0
          × (PassesWith (send network script s) → (n < m) × (m ≤ limit))
    send_counts [] n s small stands = (n, omega arith, omega arith, stands, λ h. cc)
    send_counts (answered ∷ more) n s small stands =
        let (said, counts) = script_counts n s (omega arith) stands in
        (
          suc n,
          omega arith,
          omega arith,
          counts,
          λ h.
              let passes : leb (suc n) limit ≡ true = sym (ap (within limit) said) ∙ h in
              (omega arith, ground arith),
        )
    send_counts (lost_before ∷ more) n s small stands =
        let (m, low, high, counts, passes) = send_counts more n s (omega arith) stands in
        (m, low, omega arith, counts, passes)
    send_counts (lost_after ∷ more) n s small stands =
        let (said, one) = script_counts n s (omega arith) stands in
        let (m, low, high, counts, passes) =
          send_counts more (suc n) (script s).0 (omega arith) one in
        (m, omega arith, omega arith, counts, λ h. (omega (arith, (passes h).0), (passes h).1))

    -- If no answer is lost before one comes, it counts one.
    pub send_counts_one :
        (network : Network) (n : ℕ) (s : redis.State)
        → IsPrompt network
        → n < counter_max
        → Stands n s
        → (within limit (reply_of (send network script s).1) ≡ leb (suc n) limit)
          × Stands (suc n) (send network script s).0
    send_counts_one [] n s p small stands = absurd p
    send_counts_one (answered ∷ more) n s p small stands =
        let (said, counts) = script_counts n s small stands in (ap (within limit) said, counts)
    send_counts_one (lost_before ∷ more) n s p small stands =
        send_counts_one more n s p small stands
    send_counts_one (lost_after ∷ more) n s p small stands = absurd p
