-- ===== src/Create/Expiry/Kept.antt =====
-- What holds of the presets' values holds whatever is checked or disabled.
use key_bank.Base.{
  ℕ, zero, suc, max, ◌/◌, Bool, true, false, List, [], ◌∷◌, map, Option, none, some, Result, ok,
  err, ◌>>=◌, if◌then◌else◌, All, ltb,
}
use key_bank.Create.Expiry.{
  PresetValue, seconds, custom, blank, Preset, Form, is_custom, any_preset, limit_value,
  limit_preset, limit_minutes, uncheck, put_before, check_first, check_here, check_last,
  is_available, is_offered, check_fallback, ensure_choice, configure_expiry_options, check_at,
  enabled_at, pick_preset,
}

module _ (P : PresetValue → Type 0) where
  abbrev pub OfValue : Preset → Type 0
  OfValue p = P p.value

  abbrev AllIn : Option (List Preset) → Type 0
  AllIn none = Unit
  AllIn (some ps) = All OfValue ps

  abbrev pub AllOf : Result (List Preset) → Type 0
  AllOf (err e) = Unit
  AllOf (ok ps) = All OfValue ps

  unchecked : (ps : List Preset) → All OfValue ps → All OfValue (map uncheck ps)
  unchecked [] h = tt
  unchecked (p ∷ ps) (hp, h) = (hp, unchecked ps h)

  limit_preset-OfValue : (limit : ℕ) (p : Preset) → OfValue p → OfValue (limit_preset limit p)
  limit_preset-OfValue limit p h = go p.value
    where
      go : (v : PresetValue) → OfValue (limit_value limit p v)
      go custom = h
      go blank = h
      go (seconds n) = small (ltb limit n)
        where
          small :
              (b : Bool)
              → OfValue (
                  if b
                  then record p { disabled = true; checked = false }
                  else record p { disabled = false })
          small true = h
          small false = h

  limited :
      (limit : ℕ) (ps : List Preset) → All OfValue ps → All OfValue (map (limit_preset limit) ps)
  limited limit [] h = tt
  limited limit (p ∷ ps) (hp, h) = (limit_preset-OfValue limit p hp, limited limit ps h)

  here :
      (b : Bool) (p : Preset) (ps : List Preset) (o : Option (List Preset))
      → All OfValue (p ∷ ps)
      → AllIn o
      → AllIn (if b then some (record p { checked = true } ∷ map uncheck ps) else o)
  here true p ps o (hp, h) c = (hp, unchecked ps h)
  here false p ps o h c = c

  last_kept :
      (test : Preset → Bool) (ps : List Preset) → All OfValue ps → AllIn (check_last test ps)
  last_kept test [] h = tt
  last_kept test (p ∷ ps) (hp, h) = go (check_last test ps) (last_kept test ps h)
    where
      go : (o : Option (List Preset)) → AllIn o → AllIn (check_here test p ps o)
      go (some qs) c = (hp, c)
      go none c = here (test p) p ps none (hp, h) tt

  before_kept :
      (p : Preset) (o : Option (List Preset))
      → OfValue p
      → AllIn o
      → AllIn (put_before (uncheck p) o)
  before_kept p none hp c = tt
  before_kept p (some qs) hp c = (hp, c)

  first_kept :
      (test : Preset → Bool) (ps : List Preset) → All OfValue ps → AllIn (check_first test ps)
  first_kept test [] h = tt
  first_kept test (p ∷ ps) (hp, h) =
      here (test p) p ps _ (hp, h) (before_kept p (check_first test ps) hp (first_kept test ps h))

  fallback_kept : (a b : Option (List Preset)) → AllIn a → AllIn b → AllOf (check_fallback a b)
  fallback_kept (some x) b ha hb = ha
  fallback_kept none (some y) ha hb = hb
  fallback_kept none none ha hb = tt

  ensure_kept : (ps : List Preset) → All OfValue ps → AllOf (ensure_choice ps)
  unfolding ensure_choice
  ensure_kept ps h = go (any_preset is_available ps)
    where
      go :
          (b : Bool)
          → AllOf (
              if b
              then ok ps
              else check_fallback
                  (check_last is_offered ps)
                  (check_first (λ p. is_custom p.value) ps))
      go true = h
      go false =
          fallback_kept _ _ (last_kept is_offered ps h) (first_kept (λ p. is_custom p.value) ps h)

  abbrev pub FormOf : Result Form → Type 0
  FormOf (err e) = Unit
  FormOf (ok form) = All OfValue form.presets

  pub configure_kept :
      (form : Form) (limit : ℕ)
      → All OfValue form.presets
      → FormOf (configure_expiry_options form limit)
  unfolding configure_expiry_options
  configure_kept form limit h =
      go (ensure_choice (map (limit_preset limit) form.presets))
        (ensure_kept _ (limited limit form.presets h))
    where
      go :
          (r : Result (List Preset))
          → AllOf r
          → FormOf (
              r >>= λ ps. ok (record {
                presets = ps;
                minutes = limit_minutes (max 1 (limit / 60)) form.minutes;
                max_minutes = max 1 (limit / 60);
              }))
      go (err e) c = tt
      go (ok ps) c = c

  check_at-kept : (i : ℕ) (ps : List Preset) → All OfValue ps → All OfValue (check_at i ps)
  check_at-kept i [] h = tt
  check_at-kept zero (p ∷ ps) (hp, h) = (hp, unchecked ps h)
  check_at-kept (suc i) (p ∷ ps) (hp, h) = (hp, check_at-kept i ps h)

  pub pick_kept : (i : ℕ) (ps : List Preset) → All OfValue ps → All OfValue (pick_preset i ps)
  pick_kept i ps h = go (enabled_at i ps)
    where
      go : (b : Bool) → All OfValue (if b then check_at i ps else ps)
      go true = check_at-kept i ps h
      go false = h
