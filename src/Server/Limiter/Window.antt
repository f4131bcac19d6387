-- ===== src/Server/Limiter/Window.antt =====
-- How many requests of a client pass in an hour.
use key_bank.Base.{
  ℕ, zero, suc, ◌+◌, ◌-◌, ◌*◌, ◌≤◌, ◌<◌, ◌≡◌, ◌∙◌, refl, sym, ap, subst, min, Bool, true, false,
  List, [], ◌∷◌, Option, none, Text, Bytes, All, length, leb, arith,
}
use key_bank.Server.Go.{Try, second}
use key_bank.Server.Redis.{Redis, counter_max, IsLawful, Network, send, IsPrompt}
use key_bank.Server.Limiter.{counter_key, incr_script, reply_of, within, allow}
use key_bank.Server.Limiter.Sent.{Stands, send_counts, send_counts_one}

-- What happens to the client's Redis: a request of the client, with the network of its script and the
-- time at which it runs, or what anyone else does.
pub data Turn (S : Type 0) : Type 0 where
  asks : Network → ℕ → Turn S
  others : (S → S) → Turn S

abbrev pub one_if : Bool → ℕ
one_if true = 1
one_if false = 0

module _ (redis : Redis) (bucket : Text) (limit : ℕ) (ip : Text) where
  -- How many of the client's requests are allowed, one after the other.
  unfoldable pub allowed : redis.State → List (Turn redis.State) → ℕ
  allowed s [] = 0
  allowed s (asks network now ∷ turns) =
      let (s', passes) = allow redis bucket limit network now s ip in
      one_if passes + allowed s' turns
  allowed s (others change ∷ turns) = allowed (change s) turns

module _ {S : Type 0} where
  -- The client's requests, and how often their scripts are sent.
  abbrev pub asked : List (Turn S) → ℕ
  asked [] = 0
  asked (asks network now ∷ turns) = suc (asked turns)
  asked (others change ∷ turns) = asked turns

  abbrev pub transmissions : List (Turn S) → ℕ
  transmissions [] = 0
  transmissions (asks network now ∷ turns) = length network + transmissions turns
  transmissions (others change ∷ turns) = transmissions turns

  -- The client's requests come within the hour, and answers are not lost before one comes.
  abbrev pub InHour : ℕ → Turn S → Type 0
  InHour start (asks network now) = (start ≤ now) × (now < start + 3600 * second)
  InHour start (others change) = Unit

  abbrev pub NoneLost : Turn S → Type 0
  NoneLost (asks network now) = IsPrompt network
  NoneLost (others change) = Unit

module _ (redis : Redis) (view : redis.State → ℕ → Text → Option Bytes) (laws : IsLawful redis view)
    (bucket : Text) (limit : ℕ) (ip : Text) where
  -- The others leave the client's counter alone.
  abbrev pub LeavesCounter : Turn redis.State → Type 0
  LeavesCounter (asks network now) = Unit
  LeavesCounter (others change) =
      (s : redis.State) (t : ℕ)
      → view (change s) t (counter_key bucket ip) ≡ view s t (counter_key bucket ip)

  module _ (start : ℕ) where
    abbrev At : ℕ → redis.State → Type 0
    At = Stands redis view laws bucket limit ip start

    abbrev sent : Network → ℕ → redis.State → redis.State × Try (Try ℕ)
    sent network now = send network (λ m. incr_script redis m now (counter_key bucket ip))

    allowed_asks :
        (s : redis.State) (network : Network) (now : ℕ) (turns : List (Turn redis.State))
        → allowed redis bucket limit ip s (asks network now ∷ turns)
          ≡ one_if (within limit (reply_of (sent network now s).1))
            + allowed redis bucket limit ip (sent network now s).0 turns
    unfolding allowed allow
    allowed_asks s network now turns = refl

    allowed_others :
        (s : redis.State) (change : redis.State → redis.State) (turns : List (Turn redis.State))
        → allowed redis bucket limit ip s (others change ∷ turns)
          ≡ allowed redis bucket limit ip (change s) turns
    unfolding allowed
    allowed_others s change turns = refl

    left_alone :
        (n : ℕ) (s : redis.State) (change : redis.State → redis.State)
        → LeavesCounter (others change)
        → At n s
        → At n (change s)
    left_alone zero s change leaves stands = λ t. leaves s t ∙ stands t
    left_alone (suc n) s change leaves stands = λ t early. leaves s t ∙ stands t early

    -- A request that passes uses up one of what is left.
    spends :
        (b : Bool) (n m rest : ℕ)
        → n ≤ m
        → (b ≡ true → (n < m) × (m ≤ limit))
        → rest ≤ limit - m
        → one_if b + rest ≤ limit - n
    spends true n m rest low passes h = let (counted, fits) = passes refl in omega arith
    spends false n m rest low passes h = omega arith

    -- Where the counter stands at `n`, no more pass than are left of the limit.
    standing :
        (turns : List (Turn redis.State)) (s : redis.State) (n : ℕ)
        → n + transmissions turns ≤ counter_max
        → At n s
        → All LeavesCounter turns
        → All (InHour start) turns
        → allowed redis bucket limit ip s turns ≤ limit - n
    standing [] s n small stands l a = unfold allowed in omega arith
    standing (others change ∷ turns) s n small stands (leaves, l) (inside, a) =
        subst (λ k. k ≤ limit - n) (sym (allowed_others s change turns))
          (standing turns (change s) n small (left_alone n s change leaves stands) l a)
    standing (asks network now ∷ turns) s n small stands (leaves, l) (inside, a) =
        let (m, low, high, stands', passes) =
          send_counts redis view laws bucket limit ip start now inside network n s (omega arith)
            stands in
        let rest = standing turns (sent network now s).0 m (omega arith) stands' l a in
        subst (λ k. k ≤ limit - n) (sym (allowed_asks s network now turns))
          (spends (within limit (reply_of (sent network now s).1)) n m _ low passes rest)

    spends_one :
        (n rest more : ℕ)
        → rest ≡ min (limit - suc n) more
        → one_if (leb (suc n) limit) + rest ≡ min (limit - n) (suc more)
    spends_one n rest more h = ground arith

    -- Where no answer is lost, as many pass as are left.
    standing_all :
        (turns : List (Turn redis.State)) (s : redis.State) (n : ℕ)
        → n + asked turns ≤ counter_max
        → At n s
        → All LeavesCounter turns
        → All (InHour start) turns
        → All NoneLost turns
        → allowed redis bucket limit ip s turns ≡ min (limit - n) (asked turns)
    standing_all [] s n small stands l a b = unfold allowed in omega arith
    standing_all (others change ∷ turns) s n small stands (leaves, l) (inside, a) (prompt, b) =
        allowed_others s change turns
        ∙ standing_all turns (change s) n small (left_alone n s change leaves stands) l a b
    standing_all (asks network now ∷ turns) s n small stands (leaves, l) (inside, a) (prompt, b) =
        let (said, stands') =
          send_counts_one redis view laws bucket limit ip start now inside network n s prompt
            (omega arith) stands in
        let rest = standing_all turns (sent network now s).0 (suc n) (omega arith) stands' l a b in
        allowed_asks s network now turns
        ∙ ap (λ p. one_if p + allowed redis bucket limit ip (sent network now s).0 turns) said
        ∙ spends_one n _ (asked turns) rest

    -- Let no counter of the client run in a lawful Redis. Let its requests come within an hour, in
    -- any order with what others do, which leaves that counter alone, and let their scripts be sent
    -- no more often than a counter can count. Then no more than the limit are allowed, whatever the
    -- network loses and the client of Redis sends again.
    pub allowed-le-limit :
        (turns : List (Turn redis.State)) (s : redis.State)
        → ((t : ℕ) → view s t (counter_key bucket ip) ≡ none)
        → transmissions turns ≤ counter_max
        → All LeavesCounter turns
        → All (InHour start) turns
        → allowed redis bucket limit ip s turns ≤ limit
    allowed-le-limit turns s absent small l a =
        omega (arith, standing turns s 0 (omega arith) absent l a)

    -- Let no counter of the client run in a lawful Redis. Let its requests come within an hour, in
    -- any order with what others do, which leaves that counter alone, no more of them than a counter
    -- can count, and let Redis answer each script with no answer lost before. Then as many are
    -- allowed as there are, up to the limit.
    pub allowed-min :
        (turns : List (Turn redis.State)) (s : redis.State)
        → ((t : ℕ) → view s t (counter_key bucket ip) ≡ none)
        → asked turns ≤ counter_max
        → All LeavesCounter turns
        → All (InHour start) turns
        → All NoneLost turns
        → allowed redis bucket limit ip s turns ≡ min limit (asked turns)
    allowed-min turns s absent small l a b =
        omega (arith, standing_all turns s 0 (omega arith) absent l a b)
