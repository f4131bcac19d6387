-- ===== src/Examples/Checks.antt =====
-- Hypotheses of the examples that a run of a test decides.
use mathlib.Core.Bool.{and-eq-true_iff}
use key_bank.Base.{ℕ, ◌≡◌, ◌≢◌, Bool, true, not, [], ◌∷◌, Text, All, all, ◌==◌, arith}

module _ (P : ℕ → Type 0) (test : ℕ → Bool) (sound : (c : ℕ) → test c ≡ true → P c) where
  pub All_of_test : (t : Text) → all test t ≡ true → All P t
  All_of_test [] h = tt
  All_of_test (c ∷ t) h =
      let (hc, ht) = (and-eq-true_iff (test c) (all test t)).0 h in (sound c hc, All_of_test t ht)

pub without : (d : ℕ) (t : Text) → all (λ c. not (c == d)) t ≡ true → All (λ c. c ≢ d) t
without d t h = All_of_test (λ c. c ≢ d) (λ c. not (c == d)) (λ c hc. ground arith) t h
