-- ===== src/Create/Expiry/Configured.antt =====
-- A form that `configureExpiryOptions` has been through: one preset that the server allows is chosen.
use mathlib.Core.Bool.{and-eq-true_iff}
use key_bank.Base.{
  ℕ, ◌≤◌, ◌≡◌, ◌⊎◌, inl, inr, refl, sym, subst, Bool, true, false, not, List, [], ◌∷◌, map, Option,
  none, some, ok, ltb, if◌then◌else◌, All, arith, Bool-cases,
}
use key_bank.Create.Expiry.{
  PresetValue, seconds, custom, blank, Preset, is_custom, any_preset, limit_value, limit_preset,
  uncheck, put_before, check_first, check_here, check_last, is_available, is_offered,
  check_fallback, ensure_choice,
}

-- A preset of seconds that is checked, or can be, is within the limit.
abbrev pub FitsValue : ℕ → PresetValue → Bool → Bool → Type 0
FitsValue limit (seconds n) is_checked is_disabled = (is_checked ≡ false) ⊎ (n ≤ limit)
FitsValue limit _ is_checked is_disabled = Unit

abbrev pub Fits : ℕ → Preset → Type 0
Fits limit p = FitsValue limit p.value p.checked p.disabled

-- A disabled preset of seconds, and no other, is over the limit.
abbrev pub LimitedValue : ℕ → PresetValue → Bool → Type 0
LimitedValue limit (seconds n) is_disabled = (is_disabled ≡ true) ⊎ (n ≤ limit)
LimitedValue limit _ is_disabled = Unit

abbrev pub Limited : ℕ → Preset → Type 0
Limited limit p = Fits limit p × LimitedValue limit p.value p.disabled

limit_preset-Limited : (limit : ℕ) (p : Preset) → Limited limit (limit_preset limit p)
limit_preset-Limited limit p = go p.value refl
  where
    go : (v : PresetValue) → p.value ≡ v → Limited limit (limit_value limit p v)
    go custom e = rw e (tt, tt)
    go blank e = rw e (tt, tt)
    go (seconds n) e = small (ltb limit n) refl
      where
        small :
            (b : Bool)
            → ltb limit n ≡ b
            → Limited limit (
                if b
                then record p { disabled = true; checked = false }
                else record p { disabled = false })
        small true over =
            subst (λ v. FitsValue limit v false true × LimitedValue limit v true) (sym e)
              (inl refl, inl refl)
        small false within =
            subst (λ v. FitsValue limit v p.checked false × LimitedValue limit v false) (sym e)
              (inr (ground arith), inr (ground arith))

module _ (limit : ℕ) where
  uncheck-Fits : (p : Preset) → Fits limit (uncheck p)
  uncheck-Fits p = go p.value
    where
      go : (v : PresetValue) → FitsValue limit v false p.disabled
      go custom = tt
      go blank = tt
      go (seconds n) = inl refl

  uncheck-all : (ps : List Preset) → All (Fits limit) (map uncheck ps)
  uncheck-all [] = tt
  uncheck-all (p ∷ ps) = (uncheck-Fits p, uncheck-all ps)

  pub all-Limited : (ps : List Preset) → All (Limited limit) (map (limit_preset limit) ps)
  all-Limited [] = tt
  all-Limited (p ∷ ps) = (limit_preset-Limited limit p, all-Limited ps)

  Limited-Fits : (ps : List Preset) → All (Limited limit) ps → All (Fits limit) ps
  Limited-Fits [] h = tt
  Limited-Fits (p ∷ ps) ((f, l), h) = (f, Limited-Fits ps h)

  custom-Fits : (p : Preset) → is_custom p.value ≡ true → Fits limit (record p { checked = true })
  custom-Fits p e = go p.value e
    where
      go : (v : PresetValue) → is_custom v ≡ true → FitsValue limit v true p.disabled
      go custom e = tt
      go blank e = cc
      go (seconds n) e = cc

  offered-Fits :
      (p : Preset)
      → is_offered p ≡ true
      → Limited limit p
      → Fits limit (record p { checked = true })
  offered-Fits p e l =
      go p.value l.1 ((and-eq-true_iff (not (is_custom p.value)) (not p.disabled)).0 e).1
    where
      go :
          (v : PresetValue)
          → LimitedValue limit v p.disabled
          → not p.disabled ≡ true
          → FitsValue limit v true p.disabled
      go custom l e = tt
      go blank l e = tt
      go (seconds n) (inl off) e = absurd (clash off e)
        where
          clash : p.disabled ≡ true → not p.disabled ≡ true → ⊥
          clash off e = ground arith
      go (seconds n) (inr small) e = inr small

  -- Where a list is chosen, its checked presets fit.
  abbrev Chosen : Option (List Preset) → Type 0
  Chosen none = Unit
  Chosen (some ps) = All (Fits limit) ps

  check_last-Chosen :
      (ps : List Preset) → All (Limited limit) ps → Chosen (check_last is_offered ps)
  check_last-Chosen [] h = tt
  check_last-Chosen (p ∷ ps) (hp, h) = go (check_last is_offered ps) (check_last-Chosen ps h)
    where
      go : (o : Option (List Preset)) → Chosen o → Chosen (check_here is_offered p ps o)
      go (some qs) c = (uncheck-Fits p, c)
      go none c = elim (Bool-cases (is_offered p)) [
        | inl it ↦ rw it (offered-Fits p it hp, uncheck-all ps)
        | inr other ↦ rw other tt
      ]

  check_first-Chosen : (ps : List Preset) → Chosen (check_first (λ p. is_custom p.value) ps)
  check_first-Chosen [] = tt
  check_first-Chosen (p ∷ ps) =
      let later = put (check_first (λ p. is_custom p.value) ps) (check_first-Chosen ps) in
      elim (Bool-cases (is_custom p.value)) [
        | inl it ↦ rw it (custom-Fits p it, uncheck-all ps)
        | inr other ↦ rw other later
      ]
    where
      put : (o : Option (List Preset)) → Chosen o → Chosen (put_before (uncheck p) o)
      put none c = tt
      put (some qs) c = (uncheck-Fits p, c)

  pub ensure_choice-Fits :
      (ps : List Preset)
      → All (Limited limit) ps
      → (qs : List Preset) → ensure_choice ps ≡ ok qs
      → All (Fits limit) qs
  unfolding ensure_choice
  ensure_choice-Fits ps h qs e = elim (Bool-cases (any_preset is_available ps)) [
    | inl it ↦
        let same : ok ps ≡ ok qs = rw it at e in
        subst (All (Fits limit)) (ok-same same) (Limited-Fits ps h)
    | inr other ↦
        let e' : check_fallback (check_last is_offered ps) (check_first (λ p. is_custom p.value) ps)
            ≡ ok qs =
          rw other at e in
        fallback _ _ (check_last-Chosen ps h) (check_first-Chosen ps) e'
  ]
    where
      ok-same : {a b : List Preset} → ok a ≡ ok b → a ≡ b
      ok-same q = ground arith

      fallback :
          (a b : Option (List Preset))
          → Chosen a
          → Chosen b
          → check_fallback a b ≡ ok qs
          → All (Fits limit) qs
      fallback (some x) b ca cb q = subst (All (Fits limit)) (ok-same q) ca
      fallback none (some y) ca cb q = subst (All (Fits limit)) (ok-same q) cb
      fallback none none ca cb q = cc
