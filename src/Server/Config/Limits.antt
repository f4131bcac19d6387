-- ===== src/Server/Config/Limits.antt =====
-- config.go: what any environment comes to.
use key_bank.Base.{
  ℕ, ◌*◌, ◌≤◌, ◌≡◌, ◌∙◌, min, false, [], ◌∷◌, Option, some, Text, Bytes, codes, All, ok, ltb,
  if◌then◌else◌, arith, Bool-cases, inl, inr,
}
use key_bank.Create.Expiry.{Form, selected_ttl, page_max_ttl}
use key_bank.Create.Expiry.Choice.{IsLongPreset}
use key_bank.Server.Go.{Try, fails, gives, ℤ, pos, negsuc, second}
use key_bank.Server.Handlers.{
  min_ttl, max_allowed_ttl, PageData, set_max_ttl, configured_handlers, chosen_ttl, Json, home_data,
}
use key_bank.Server.Handlers.Lifetime.{chosen_ttl-selected_ttl}
use key_bank.Server.Store.{KeyStore}
use key_bank.Server.Config.{
  Parsers, Environment, positive_or, int_or, minute_or, duration_or, load_config, main_handlers,
}

-- What an operator may expect of MAX_TTL: at least a minute, and no more than a week, which is also what
-- holds where there is no such duration.
abbrev pub week_at_most : Try ℤ → ℕ
week_at_most fails = max_allowed_ttl
week_at_most (gives (negsuc n)) = max_allowed_ttl
week_at_most (gives (pos n)) = if ltb n min_ttl then max_allowed_ttl else min n max_allowed_ttl

abbrev pub asked_limit : Parsers → Text → ℕ
asked_limit parsers [] = max_allowed_ttl
asked_limit parsers (c ∷ v) = week_at_most (parsers.parse_duration (c ∷ v))

positive_or-pos : (r : Try ℤ) (def : ℕ) → 1 ≤ def → 1 ≤ positive_or r def
positive_or-pos fails def h = h
positive_or-pos (gives (negsuc n)) def h = h
positive_or-pos (gives (pos n)) def h = ground arith

int_or-pos : (parsers : Parsers) (v : Text) (def : ℕ) → 1 ≤ def → 1 ≤ int_or parsers v def
int_or-pos parsers [] def h = h
int_or-pos parsers (c ∷ v) def h = positive_or-pos (parsers.atoi (c ∷ v)) def h

-- The limit that the handlers of a configured duration have.
set_from :
    (n : ℕ) (templates : Option (PageData → Try Bytes)) (auto_hide : ℕ)
    → min_ttl ≤ n
    → (configured_handlers templates (pos auto_hide) (pos n)).max_ttl ≡ min n max_allowed_ttl
unfolding configured_handlers set_max_ttl
set_from n templates auto_hide h = ground arith

minute_or-limit :
    (r : Try ℤ) (templates : Option (PageData → Try Bytes)) (auto_hide : ℕ)
    → (configured_handlers templates (pos auto_hide) (pos (minute_or r max_allowed_ttl))).max_ttl
      ≡ week_at_most r
minute_or-limit fails templates auto_hide =
    set_from max_allowed_ttl templates auto_hide (omega arith) ∙ omega arith
minute_or-limit (gives (negsuc n)) templates auto_hide =
    set_from max_allowed_ttl templates auto_hide (omega arith) ∙ omega arith
minute_or-limit (gives (pos n)) templates auto_hide = elim (Bool-cases (ltb n min_ttl)) [
  | inl short ↦ rw short (set_from max_allowed_ttl templates auto_hide (omega arith) ∙ omega arith)
  | inr long ↦ rw long (set_from n templates auto_hide (above long))
]
  where
    above : ltb n min_ttl ≡ false → min_ttl ≤ n
    above long = ground arith

duration_or-limit :
    (parsers : Parsers) (v : Text) (templates : Option (PageData → Try Bytes)) (auto_hide : ℕ)
    → (configured_handlers templates
        (pos auto_hide)
        (pos (duration_or parsers v max_allowed_ttl))).max_ttl
      ≡ asked_limit parsers v
duration_or-limit parsers [] templates auto_hide =
    set_from max_allowed_ttl templates auto_hide (omega arith) ∙ omega arith
duration_or-limit parsers (c ∷ v) templates auto_hide =
    minute_or-limit (parsers.parse_duration (c ∷ v)) templates auto_hide

main_limit :
    (parsers : Parsers) (env : Environment) (templates : Option (PageData → Try Bytes))
    → (main_handlers templates (load_config parsers env)).max_ttl
      ≡ asked_limit parsers (env (codes "MAX_TTL"))
unfolding main_handlers load_config
main_limit parsers env templates =
    duration_or-limit parsers (env (codes "MAX_TTL")) templates
      (load_config parsers env).auto_hide_seconds

-- Whatever the environment says: a limiter lets at least one request through; the server keeps keys for
-- as long as MAX_TTL says, up to a week, and for a week where it says nothing, or no duration of a minute at
-- least; and if every preset of seconds has at least 60, a lifetime that the form of the server's create page
-- yields is granted as it is, and lies between a minute and that limit.
pub chosen_ttl-load_config :
    (parsers : Parsers) (env : Environment) (ks : KeyStore) (json : Json) (LimiterCall : Type 0)
    (templates : Option (PageData → Try Bytes)) (to_locale_string : ℕ → Text) (form : Form) (n : ℕ)
    → All IsLongPreset form.presets
    → selected_ttl to_locale_string form (
        page_max_ttl (
          some
            (home_data ks json LimiterCall
              (main_handlers templates (load_config parsers env))).max_ttl_seconds))
      ≡ ok n
    → let config = load_config parsers env in
      let h = main_handlers templates config in
      (1 ≤ config.rate_limit_create)
      × (1 ≤ config.rate_limit_fetch)
      × (h.max_ttl ≡ asked_limit parsers (env (codes "MAX_TTL")))
      × (chosen_ttl h.max_ttl (pos n) ≡ some (n * second))
      × (min_ttl ≤ n * second)
      × (n * second ≤ h.max_ttl)
unfolding main_handlers load_config
chosen_ttl-load_config parsers env ks json LimiterCall templates to_locale_string form n long e =
    let config = load_config parsers env in
    let (granted, low, high) =
      chosen_ttl-selected_ttl ks json LimiterCall templates (pos config.auto_hide_seconds)
        (pos config.max_ttl) to_locale_string form n long e in
    (
      int_or-pos parsers (env (codes "RATE_LIMIT_CREATE")) 30 (omega arith),
      int_or-pos parsers (env (codes "RATE_LIMIT_FETCH")) 60 (omega arith),
      main_limit parsers env templates,
      granted,
      low,
      high,
    )
