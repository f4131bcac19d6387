-- ===== src/Ui/Duration.antt =====
-- `formatDuration` chooses the largest unit that divides the seconds.
use key_bank.Base.{
  ℕ, ◌*◌, ◌/◌, ◌%◌, ◌≡◌, ◌≢◌, refl, ap, inl, inr, Text, codes, arith, ◌==◌, Bool-cases, ◌≤◌, ◌<◌,
  ◌⊎◌, All,
}
use key_bank.Ui.{plural, format_duration, duration_units}

-- A unit with its seconds, from days to seconds.
pub data IsUnit : Text → ℕ → Type 0 where
  day : IsUnit (codes "day") 86400
  hour : IsUnit (codes "hour") 3600
  minute : IsUnit (codes "minute") 60
  second : IsUnit (codes "second") 1

-- No unit above `size` divides the seconds.
abbrev pub IsLargest : ℕ → ℕ → Type 0
IsLargest seconds size = All (λ u. (u.1 ≤ size) ⊎ (seconds % u.1 ≢ 0)) duration_units

pub record Formatted (to_locale_string : ℕ → Text) (seconds : ℕ) (text : Text) : Type 0 where
  pub unit : Text
  pub size : ℕ
  pub count : ℕ
  pub is_unit : IsUnit unit size
  pub written : text ≡ plural to_locale_string count unit
  pub exact : count * size ≡ seconds
  pub largest : IsLargest seconds size

module _ (to_locale_string : ℕ → Text) (seconds : ℕ) where
  formatted :
      (unit : Text) (size : ℕ)
      → IsUnit unit size
      → 0 < size
      → seconds % size ≡ 0
      → IsLargest seconds size
      → format_duration to_locale_string seconds ≡ plural to_locale_string (seconds / size) unit
      → Formatted to_locale_string seconds (format_duration to_locale_string seconds)
  formatted unit size u pos whole a e = record {
    unit = unit;
    size = size;
    count = seconds / size;
    is_unit = u;
    written = e;
    exact = grind arith;
    largest = a;
  }

  -- The text of a duration is an exact count of a unit, and no larger unit of the list divides it.
  pub format_duration-Formatted :
      Formatted to_locale_string seconds (format_duration to_locale_string seconds)
  format_duration-Formatted = elim (Bool-cases (seconds % 86400 == 0)) [
    | inl d ↦
        formatted (codes "day") 86400 day (omega arith) (ground arith)
          (inl (omega arith), (inl (omega arith), (inl (omega arith), tt)))
          (unfold format_duration in rw d refl)
    | inr d ↦ elim (Bool-cases (seconds % 3600 == 0)) [
      | inl h ↦
          formatted (codes "hour") 3600 hour (omega arith) (ground arith)
            (inr (ground arith), (inl (omega arith), (inl (omega arith), tt)))
            (unfold format_duration in rw (d, h) refl)
      | inr h ↦ elim (Bool-cases (seconds % 60 == 0)) [
        | inl m ↦
            formatted (codes "minute") 60 minute (omega arith) (ground arith)
              (inr (ground arith), (inr (ground arith), (inl (omega arith), tt)))
              (unfold format_duration in rw (d, h, m) refl)
        | inr m ↦
            formatted (codes "second") 1 second (omega arith) (ground arith)
              (inr (ground arith), (inr (ground arith), (inr (ground arith), tt)))
              (unfold format_duration in
                rw (d, h, m) (ap (λ n. plural to_locale_string n (codes "second")) (omega arith)))
      ]
    ]
  ]
