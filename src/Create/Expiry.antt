-- ===== src/Create/Expiry.antt =====
-- static/create.js, how long a note lives: the presets of the form, the field for minutes, and the
-- limit of the server.
pub mod Choice
pub mod Configured
pub mod Available
pub mod Kept
use key_bank.Base.{
  ℕ, zero, suc, ◌*◌, ◌/◌, min, max, Bool, true, false, not, ◌&&◌, ◌||◌, List, [], ◌∷◌, ◌++◌, map,
  Option, none, some, Text, codes, Result, ok, err, thrown, rejected, ◌>>=◌, ltb, leb,
  if◌then◌else◌,
}
use key_bank.Ui.{format_duration}

abbrev pub default_ttl_seconds : ℕ
default_ttl_seconds = 86400

abbrev pub max_ttl_seconds : ℕ
max_ttl_seconds = 604800

-- The value of a preset: the template gives a number of seconds, "custom" or the empty text.
pub data PresetValue : Type 0 where
  seconds : ℕ → PresetValue
  custom blank : PresetValue

-- A radio button of the group "expiryPreset".
pub record Preset : Type 0 where
  pub value : PresetValue
  pub checked : Bool
  pub disabled : Bool

-- `Number` of the field for minutes: a whole number, one between this number and the next, or one
-- below zero or none at all.
pub data Minutes : Type 0 where
  whole between : ℕ → Minutes
  below : Minutes

pub record Form : Type 0 where
  pub presets : List Preset
  pub minutes : Minutes
  pub max_minutes : ℕ

abbrev pub is_custom : PresetValue → Bool
is_custom custom = true
is_custom _ = false

-- `some`
abbrev pub any_preset : (Preset → Bool) → List Preset → Bool
any_preset test [] = false
any_preset test (p ∷ ps) = test p || any_preset test ps

abbrev pub is_custom_selected : List Preset → Bool
is_custom_selected = any_preset (λ p. p.checked && is_custom p.value)

-- `querySelector('input[name="expiryPreset"]:checked')`
abbrev pub selected_preset : List Preset → Option Preset
selected_preset [] = none
selected_preset (p ∷ ps) = if p.checked then some p else selected_preset ps

abbrev pub over_limit : Text
over_limit = codes "That expiry exceeds this server's configured limit."

abbrev pub whole_minutes : Text
whole_minutes = codes "Enter a custom expiry in whole minutes (at least 1)."

abbrev pub custom_over_limit : (ℕ → Text) → ℕ → Text
custom_over_limit to_locale_string max_ttl =
    codes "Custom expiry exceeds this server's limit of "
    ++ (format_duration to_locale_string max_ttl ++ codes ".")

module _ (to_locale_string : ℕ → Text) where
  abbrev pub custom_ttl : ℕ → Minutes → Result ℕ
  custom_ttl max_ttl (whole n) =
      if ltb n 1
      then err (thrown whole_minutes)
      else if ltb max_ttl (n * 60)
      then err (thrown (custom_over_limit to_locale_string max_ttl))
      else ok (n * 60)
  custom_ttl max_ttl (between n) = err (thrown whole_minutes)
  custom_ttl max_ttl below = err (thrown whole_minutes)

  abbrev pub value_ttl : ℕ → Minutes → PresetValue → Result ℕ
  value_ttl max_ttl minutes blank = ok (min default_ttl_seconds max_ttl)
  value_ttl max_ttl minutes (seconds n) = if ltb max_ttl n then err (thrown over_limit) else ok n
  value_ttl max_ttl minutes custom = custom_ttl max_ttl minutes

  abbrev pub preset_ttl : ℕ → Minutes → Option Preset → Result ℕ
  preset_ttl max_ttl minutes none = ok (min default_ttl_seconds max_ttl)
  preset_ttl max_ttl minutes (some p) = value_ttl max_ttl minutes p.value

  unfoldable pub selected_ttl : Form → ℕ → Result ℕ
  selected_ttl form max_ttl = preset_ttl max_ttl form.minutes (selected_preset form.presets)

-- The first loop of `configureExpiryOptions`; `Number("")` is 0.
abbrev pub limit_value : ℕ → Preset → PresetValue → Preset
limit_value max_ttl p custom = p
limit_value max_ttl p blank = record p { disabled = false }
limit_value max_ttl p (seconds n) =
    if ltb max_ttl n
    then record p { disabled = true; checked = false }
    else record p { disabled = false }

abbrev pub limit_preset : ℕ → Preset → Preset
limit_preset max_ttl p = limit_value max_ttl p p.value

abbrev pub limit_minutes : ℕ → Minutes → Minutes
limit_minutes most (whole n) = if ltb most n then whole most else whole n
limit_minutes most (between n) = if leb most n then whole most else between n
limit_minutes most below = below

abbrev pub uncheck : Preset → Preset
uncheck p = record p { checked = false }

-- The list with one preset more in front, if there is a list.
abbrev pub put_before : Preset → Option (List Preset) → Option (List Preset)
put_before p none = none
put_before p (some ps) = some (p ∷ ps)

-- `find(test).checked = true`, where checking a radio button unchecks the others of its group.
abbrev pub check_first : (Preset → Bool) → List Preset → Option (List Preset)
check_first test [] = none
check_first test (p ∷ ps) =
    let later = put_before (uncheck p) (check_first test ps) in
    if test p then some (record p { checked = true } ∷ map uncheck ps) else later

abbrev pub check_here :
    (Preset → Bool) → Preset → List Preset → Option (List Preset) → Option (List Preset)
check_here test p ps (some qs) = some (uncheck p ∷ qs)
check_here test p ps none =
    if test p then some (record p { checked = true } ∷ map uncheck ps) else none

-- `filter(test).at(-1).checked = true`
abbrev pub check_last : (Preset → Bool) → List Preset → Option (List Preset)
check_last test [] = none
check_last test (p ∷ ps) = check_here test p ps (check_last test ps)

abbrev pub is_available : Preset → Bool
is_available p = p.checked && not p.disabled

abbrev pub is_offered : Preset → Bool
is_offered p = not (is_custom p.value) && not p.disabled

-- `longestAvailable ?? custom`; setting a field of `undefined` throws.
abbrev pub check_fallback : Option (List Preset) → Option (List Preset) → Result (List Preset)
check_fallback (some ps) custom_one = ok ps
check_fallback none (some ps) = ok ps
check_fallback none none = err rejected

unfoldable pub ensure_choice : List Preset → Result (List Preset)
ensure_choice ps =
    if any_preset is_available ps
    then ok ps
    else check_fallback (check_last is_offered ps) (check_first (λ p. is_custom p.value) ps)

unfoldable pub configure_expiry_options : Form → ℕ → Result Form
configure_expiry_options form max_ttl = do
  let most = max 1 (max_ttl / 60)
  ps ← ensure_choice (map (limit_preset max_ttl) form.presets)
  ok (record { presets = ps; minutes = limit_minutes most form.minutes; max_minutes = most })

-- The limit of the page: `none` is a number that is not finite.
unfoldable pub page_max_ttl : Option ℕ → ℕ
page_max_ttl none = max_ttl_seconds
page_max_ttl (some configured) =
    if leb 60 configured then min configured max_ttl_seconds else max_ttl_seconds

abbrev pub check_at : ℕ → List Preset → List Preset
check_at i [] = []
check_at zero (p ∷ ps) = record p { checked = true } ∷ map uncheck ps
check_at (suc i) (p ∷ ps) = uncheck p ∷ check_at i ps

abbrev pub enabled_at : ℕ → List Preset → Bool
enabled_at i [] = false
enabled_at zero (p ∷ ps) = not p.disabled
enabled_at (suc i) (p ∷ ps) = enabled_at i ps

-- A click on a radio button that is not disabled.
abbrev pub pick_preset : ℕ → List Preset → List Preset
pick_preset i ps = if enabled_at i ps then check_at i ps else ps
