-- ===== src/Create/Expiry/Available.antt =====
-- A configured form always has a choice, and no limit stands against it.
use key_bank.Base.{
  ℕ, ◌*◌, ◌/◌, ◌≤◌, ◌≡◌, ◌∙◌, ◌⊎◌, inl, inr, refl, ap, subst, min, max, Bool, true, false, List, [],
  ◌∷◌, map, Option, none, some, Text, Result, ok, err, thrown, ltb, leb, if◌then◌else◌, arith,
  Bool-cases,
}
use key_bank.Create.Expiry.{
  PresetValue, seconds, custom, blank, Preset, Minutes, whole, between, below, Form, is_custom,
  any_preset, selected_preset, whole_minutes, custom_ttl, value_ttl, selected_ttl, limit_value,
  limit_preset, limit_minutes, uncheck, put_before, check_first, check_here, check_last,
  is_available, is_offered, check_fallback, ensure_choice, configure_expiry_options,
}
use key_bank.Create.Expiry.Choice.{OfFound, selected-OfFound}
use key_bank.Create.Expiry.Configured.{Fits, FitsValue, all-Limited, ensure_choice-Fits}

-- A preset is checked.
abbrev pub HasChoice : List Preset → Type 0
HasChoice ps = (p : Preset) × (selected_preset ps ≡ some p)

abbrev custom_preset : Preset → Bool
custom_preset p = is_custom p.value

abbrev ChoiceIn : Option (List Preset) → Type 0
ChoiceIn none = Unit
ChoiceIn (some ps) = HasChoice ps

check_last-ChoiceIn : (ps : List Preset) → ChoiceIn (check_last is_offered ps)
check_last-ChoiceIn [] = tt
check_last-ChoiceIn (p ∷ ps) = go (check_last is_offered ps) (check_last-ChoiceIn ps)
  where
    go : (o : Option (List Preset)) → ChoiceIn o → ChoiceIn (check_here is_offered p ps o)
    go (some qs) c = c
    go none c = here (is_offered p)
      where
        here :
            (b : Bool)
            → ChoiceIn (if b then some (record p { checked = true } ∷ map uncheck ps) else none)
        here true = (record p { checked = true }, refl)
        here false = tt

selected-checked : (ps : List Preset) → OfFound (λ p. p.checked ≡ true) (selected_preset ps)
selected-checked [] = tt
selected-checked (p ∷ ps) = elim (Bool-cases p.checked) [
  | inl it ↦ rw it refl
  | inr other ↦ rw other (selected-checked ps)
]

-- `check_first` finds a preset where there is one.
check_first_custom :
    (ps : List Preset)
    → any_preset custom_preset ps ≡ true
    → (qs : List Preset) × (check_first custom_preset ps ≡ some qs) × HasChoice qs
check_first_custom [] h = cc
check_first_custom (p ∷ ps) h = elim (Bool-cases (is_custom p.value)) [
  | inl it ↦ (
    record p { checked = true } ∷ map uncheck ps,
    rw it refl,
    (record p { checked = true }, refl),
  )
  | inr other ↦
      let (qs, e, c) = check_first_custom ps (rw other at h) in
      (uncheck p ∷ qs, rw other (ap (put_before (uncheck p)) e), c)
]

available_choice : (ps : List Preset) → any_preset is_available ps ≡ true → HasChoice ps
available_choice [] h = cc
available_choice (p ∷ ps) h = elim (Bool-cases p.checked) [
  | inl it ↦ (p, rw it refl)
  | inr other ↦ let (q, e) = available_choice ps (rw other at h) in (q, rw other e)
]

ensured :
    (ps : List Preset)
    → any_preset custom_preset ps ≡ true
    → (qs : List Preset) × (ensure_choice ps ≡ ok qs) × HasChoice qs
unfolding ensure_choice
ensured ps h = elim (Bool-cases (any_preset is_available ps)) [
  | inl it ↦ (ps, rw it refl, available_choice ps it)
  | inr other ↦
      let (qs, e, c) = check_first_custom ps h in
      let (rs, e', c') = go (check_last is_offered ps) (check_last-ChoiceIn ps) qs c in
      (rs, rw (other, e) e', c')
]
  where
    go :
        (o : Option (List Preset))
        → ChoiceIn o
        → (qs : List Preset) → HasChoice qs
        → (rs : List Preset) × (check_fallback o (some qs) ≡ ok rs) × HasChoice rs
    go (some rs) c qs d = (rs, refl, c)
    go none c qs d = (qs, refl, d)

limit_preset-value : (limit : ℕ) (p : Preset) → (limit_preset limit p).value ≡ p.value
limit_preset-value limit p = go p.value
  where
    go : (v : PresetValue) → (limit_value limit p v).value ≡ p.value
    go custom = refl
    go blank = refl
    go (seconds n) = ground arith

any_custom-limited :
    (limit : ℕ) (ps : List Preset)
    → any_preset custom_preset (map (limit_preset limit) ps) ≡ any_preset custom_preset ps
any_custom-limited limit [] = refl
any_custom-limited limit (p ∷ ps) =
    rw (limit_preset-value limit p, any_custom-limited limit ps) refl

module _ (to_locale_string : ℕ → Text) where
  -- A lifetime, or the message that asks for whole minutes.
  abbrev pub Answers : Result ℕ → Type 0
  Answers r = ((ttl : ℕ) × (r ≡ ok ttl)) ⊎ (r ≡ err (thrown whole_minutes))

  whole-Answers :
      (limit n : ℕ) → n * 60 ≤ limit → Answers (custom_ttl to_locale_string limit (whole n))
  whole-Answers limit n h = elim (Bool-cases (ltb n 1)) [
    | inl none_at_all ↦ inr (rw none_at_all refl)
    | inr some_left ↦ inl (n * 60, ground arith)
  ]

  custom-Answers :
      (limit most : ℕ) (minutes : Minutes)
      → most * 60 ≤ limit
      → Answers (custom_ttl to_locale_string limit (limit_minutes most minutes))
  custom-Answers limit most (whole n) h = elim (Bool-cases (ltb most n)) [
    | inl over ↦ rw over (whole-Answers limit most h)
    | inr under ↦ rw under (whole-Answers limit n (ground arith))
  ]
  custom-Answers limit most (between n) h = elim (Bool-cases (leb most n)) [
    | inl over ↦ rw over (whole-Answers limit most h)
    | inr under ↦ rw under (inr refl)
  ]
  custom-Answers limit most below h = inr refl

  value-Answers :
      (limit : ℕ) (minutes : Minutes) (v : PresetValue) (b : Bool)
      → 60 ≤ limit
      → FitsValue limit v true b
      → Answers (value_ttl to_locale_string limit (limit_minutes (max 1 (limit / 60)) minutes) v)
  value-Answers limit minutes blank b h f = inl (min 86400 limit, refl)
  value-Answers limit minutes (seconds n) b h (inl f) = cc
  value-Answers limit minutes (seconds n) b h (inr f) = inl (n, ground arith)
  value-Answers limit minutes custom b h f =
      custom-Answers limit (max 1 (limit / 60)) minutes (omega arith)

  preset-Answers :
      (limit : ℕ) (minutes : Minutes) (p : Preset)
      → 60 ≤ limit
      → Fits limit p
      → p.checked ≡ true
      → Answers
          (value_ttl to_locale_string limit (limit_minutes (max 1 (limit / 60)) minutes) p.value)
  preset-Answers limit minutes p h f e =
      value-Answers limit minutes p.value p.disabled h
        (subst (λ b. FitsValue limit p.value b p.disabled) e f)

  -- Let the page's limit be at least 60 seconds and a preset be the custom one. Then configuring the
  -- form throws nothing, a preset is checked afterwards, and the form yields a lifetime or asks for
  -- whole minutes: neither complaint about a limit can come.
  pub configure_expiry_options-Answers :
      (form : Form) (limit : ℕ)
      → 60 ≤ limit
      → any_preset (λ p. is_custom p.value) form.presets ≡ true
      → (form' : Form) × (configure_expiry_options form limit ≡ ok form')
        × HasChoice form'.presets
        × Answers (selected_ttl to_locale_string form' limit)
  unfolding configure_expiry_options selected_ttl
  configure_expiry_options-Answers form limit h given =
      let ps = map (limit_preset limit) form.presets in
      let (qs, e, (p, c)) = ensured ps (any_custom-limited limit form.presets ∙ given) in
      let fits = ensure_choice-Fits limit ps (all-Limited limit form.presets) qs e in
      let f = subst (OfFound (Fits limit)) c (selected-OfFound (Fits limit) qs fits) in
      let k = subst (OfFound (λ p. p.checked ≡ true)) c (selected-checked qs) in
      (
        record {
          presets = qs;
          minutes = limit_minutes (max 1 (limit / 60)) form.minutes;
          max_minutes = max 1 (limit / 60);
        },
        rw e refl,
        (p, c),
        rw c (preset-Answers limit form.minutes p h f k),
      )
