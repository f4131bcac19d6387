-- ===== src/Create/Expiry/Choice.antt =====
-- The choice of a lifetime: within the limits, and always possible once the form is configured.
use key_bank.Base.{
  ℕ, ◌≤◌, ◌≡◌, Bool, true, false, List, [], ◌∷◌, Option, none, some, Text, ok, if◌then◌else◌, All,
  arith,
}
use key_bank.Create.Expiry.{
  PresetValue, seconds, custom, blank, Preset, Minutes, whole, between, below, Form,
  selected_preset, value_ttl, preset_ttl, selected_ttl, page_max_ttl,
}

-- A preset of seconds has at least the server's minimum.
abbrev pub IsLong : PresetValue → Type 0
IsLong (seconds n) = 60 ≤ n
IsLong _ = Unit

abbrev pub IsLongPreset : Preset → Type 0
IsLongPreset p = IsLong p.value

-- What holds of the preset that is found.
abbrev pub OfFound : (Preset → Type 0) → Option Preset → Type 0
OfFound P none = Unit
OfFound P (some p) = P p

OfFound-if :
    (P : Preset → Type 0) (b : Bool) (q : Preset) (o : Option Preset)
    → P q
    → OfFound P o
    → OfFound P (if b then some q else o)
OfFound-if P true q o hq h = hq
OfFound-if P false q o hq h = h

pub selected-OfFound :
    (P : Preset → Type 0) (ps : List Preset) → All P ps → OfFound P (selected_preset ps)
selected-OfFound P [] h = tt
selected-OfFound P (q ∷ ps) (hq, h) =
    OfFound-if P q.checked q (selected_preset ps) hq (selected-OfFound P ps h)

module _ (to_locale_string : ℕ → Text) where
  value_ttl-bounds :
      (limit : ℕ) (minutes : Minutes) (v : PresetValue) (ttl : ℕ)
      → 60 ≤ limit
      → IsLong v
      → value_ttl to_locale_string limit minutes v ≡ ok ttl
      → (60 ≤ ttl) × (ttl ≤ limit)
  value_ttl-bounds limit minutes blank ttl h l e = (ground arith, ground arith)
  value_ttl-bounds limit minutes (seconds n) ttl h l e = (ground arith, ground arith)
  value_ttl-bounds limit (whole n) custom ttl h l e = (ground arith, ground arith)
  value_ttl-bounds limit (between n) custom ttl h l e = cc
  value_ttl-bounds limit below custom ttl h l e = cc

  page_max_ttl-bounds :
      (configured : Option ℕ) → (60 ≤ page_max_ttl configured) × (page_max_ttl configured ≤ 604800)
  unfolding page_max_ttl
  page_max_ttl-bounds none = (omega arith, omega arith)
  page_max_ttl-bounds (some n) = (ground arith, ground arith)

  -- If every preset of seconds has at least 60, a lifetime that the form yields has at least 60
  -- seconds, and neither more than seven days nor more than the page's limit.
  pub selected_ttl-bounds :
      (form : Form) (configured : Option ℕ) (ttl : ℕ)
      → All IsLongPreset form.presets
      → selected_ttl to_locale_string form (page_max_ttl configured) ≡ ok ttl
      → (60 ≤ ttl) × (ttl ≤ 604800) × (ttl ≤ page_max_ttl configured)
  unfolding selected_ttl
  selected_ttl-bounds form configured ttl h e =
      let (low, high) = page_max_ttl-bounds configured in
      let (a, b) =
        go (selected_preset form.presets) (selected-OfFound IsLongPreset form.presets h) e low in
      (a, omega arith, b)
    where
      go :
          (o : Option Preset)
          → OfFound IsLongPreset o
          → preset_ttl to_locale_string (page_max_ttl configured) form.minutes o ≡ ok ttl
          → 60 ≤ page_max_ttl configured
          → (60 ≤ ttl) × (ttl ≤ page_max_ttl configured)
      go none q e low = (ground arith, ground arith)
      go (some p) q e low =
          value_ttl-bounds (page_max_ttl configured) form.minutes p.value ttl low q e
