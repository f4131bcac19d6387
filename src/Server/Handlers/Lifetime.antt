-- ===== src/Server/Handlers/Lifetime.antt =====
-- handlers/handlers.go and static/create.js: how long a key is kept.
use key_bank.Base.{
  ℕ, zero, suc, ◌*◌, ◌/◌, ◌≤◌, ◌≡◌, refl, sym, subst, ◌&&◌, Option, some, Text, Bytes, All, ltb,
  leb, ok, arith, Bool-cases, inl, inr,
}
use key_bank.Create.Expiry.{Form, selected_ttl, page_max_ttl}
use key_bank.Create.Expiry.Choice.{IsLongPreset, selected_ttl-bounds}
use key_bank.Server.Go.{Try, ℤ, pos, negsuc, second}
use key_bank.Server.Store.{KeyStore}
use key_bank.Server.Handlers.{
  min_ttl, max_allowed_ttl, PageData, Handlers, new_handlers, set_auto_hide_seconds, set_max_ttl,
  configured_handlers, chosen_ttl, Json, home_data,
}

-- The limit of a server.
abbrev pub IsLimit : ℕ → Type 0
IsLimit max_ttl = (min_ttl ≤ max_ttl) × (max_ttl ≤ max_allowed_ttl)

set_max_ttl-IsLimit :
    (ttl : ℤ) (h : Handlers) → IsLimit h.max_ttl → IsLimit (set_max_ttl ttl h).max_ttl
unfolding set_max_ttl
set_max_ttl-IsLimit (negsuc n) h l = l
set_max_ttl-IsLimit (pos ttl) h l = elim (Bool-cases (leb min_ttl ttl && leb ttl max_allowed_ttl)) [
  | inl fits ↦ rw fits (ground arith)
  | inr out ↦ rw out l
]

set_auto_hide_limit : (n : ℤ) (h : Handlers) → (set_auto_hide_seconds n h).max_ttl ≡ h.max_ttl
set_auto_hide_limit (negsuc n) h = refl
set_auto_hide_limit (pos n) h = elim (Bool-cases (ltb 0 n)) [
  | inl p ↦ rw p refl
  | inr p ↦ rw p refl
]

pub configured_handlers-IsLimit :
    (templates : Option (PageData → Try Bytes)) (auto_hide ttl : ℤ)
    → IsLimit (configured_handlers templates auto_hide ttl).max_ttl
unfolding configured_handlers
configured_handlers-IsLimit templates auto_hide ttl =
    set_max_ttl-IsLimit ttl (set_auto_hide_seconds auto_hide (new_handlers templates)) (
      subst IsLimit (sym (set_auto_hide_limit auto_hide (new_handlers templates)))
        (omega arith, omega arith))

pub chosen_ttl-bounds :
    (max_ttl : ℕ) (asked : ℤ) (ttl : ℕ)
    → IsLimit max_ttl
    → chosen_ttl max_ttl asked ≡ some ttl
    → (min_ttl ≤ ttl) × (ttl ≤ max_ttl)
unfolding chosen_ttl
chosen_ttl-bounds max_ttl (negsuc n) ttl l e = cc
chosen_ttl-bounds max_ttl (pos zero) ttl l e = (ground arith, ground arith)
chosen_ttl-bounds max_ttl (pos (suc n)) ttl l e = (ground arith, ground arith)

pub chosen_ttl-accepts :
    (max_ttl n : ℕ) → 60 ≤ n → n ≤ max_ttl / second → chosen_ttl max_ttl (pos n) ≡ some (n * second)
unfolding chosen_ttl
chosen_ttl-accepts max_ttl zero low high = absurd (omega arith)
chosen_ttl-accepts max_ttl (suc n) low high = ground arith

page_max_ttl-below : (n : ℕ) → 60 ≤ n → page_max_ttl (some n) ≤ n
unfolding page_max_ttl
page_max_ttl-below n h = ground arith

whole_minute : (max_ttl : ℕ) → min_ttl ≤ max_ttl → 60 ≤ max_ttl / second
whole_minute max_ttl h = omega arith

-- If every preset of seconds has at least 60, then whatever the server is configured with, a lifetime
-- that the form of its create page yields is granted as it is, and lies between a minute and the
-- server's limit.
pub chosen_ttl-selected_ttl :
    (ks : KeyStore) (json : Json) (LimiterCall : Type 0) (templates : Option (PageData → Try Bytes))
    (auto_hide ttl : ℤ) (to_locale_string : ℕ → Text) (form : Form) (n : ℕ)
    → All IsLongPreset form.presets
    → selected_ttl to_locale_string form (
        page_max_ttl (
          some
            (home_data ks json LimiterCall
              (configured_handlers templates auto_hide ttl)).max_ttl_seconds))
      ≡ ok n
    → (chosen_ttl (configured_handlers templates auto_hide ttl).max_ttl (pos n) ≡ some (n * second))
      × (min_ttl ≤ n * second)
      × (n * second ≤ (configured_handlers templates auto_hide ttl).max_ttl)
chosen_ttl-selected_ttl ks json LimiterCall templates auto_hide ttl to_locale_string form n long e =
    let limit = (configured_handlers templates auto_hide ttl).max_ttl in
    let fits = configured_handlers-IsLimit templates auto_hide ttl in
    let (low, week, high) =
      selected_ttl-bounds to_locale_string form (some (limit / second)) n long e in
    let below = page_max_ttl-below (limit / second) (whole_minute limit fits.0) in
    let granted = chosen_ttl-accepts limit n low (omega arith) in
    let bounds = chosen_ttl-bounds limit (pos n) (n * second) fits granted in
    (granted, bounds.0, bounds.1)
