-- ===== src/Examples/Configured.antt =====
-- Examples of a configured server and its create page.
use key_bank.Base.{
  if◌then◌else◌, ◌*◌, ◌≤◌, ◌≡◌, refl, true, false, [], ◌∷◌, none, some, codes, All, ok, arith,
}
use key_bank.Js.Url.{text_eq}
use key_bank.Js.Number.{decimal}
use key_bank.Create.Expiry.{Form, seconds, custom, whole, selected_ttl, page_max_ttl}
use key_bank.Create.Expiry.Choice.{IsLongPreset}
use key_bank.Server.Go.{fails, gives, pos}
use key_bank.Server.Store.{mem_key_store}
use key_bank.Server.Handlers.{set_max_ttl, configured_handlers, home_data, min_ttl, chosen_ttl}
use key_bank.Server.Config.{Parsers, Environment, env_duration, load_config, main_handlers}
use key_bank.Server.Config.Limits.{asked_limit, chosen_ttl-load_config}
use key_bank.Examples.Servers.{json}

abbrev form : Form
form = record {
  presets =
      record { value = seconds 3600; checked = true; disabled = false }
      ∷ record { value = custom; checked = false; disabled = false }
      ∷ [];
  minutes = whole 5;
  max_minutes = 10080;
}

-- A server that keeps keys for two hours at most.
abbrev parsers : Parsers
parsers = record { atoi = λ v. fails; parse_duration = λ v. gives (pos (7200 * 1000000000)) }

abbrev environment : Environment
environment key = if text_eq key (codes "MAX_TTL") then codes "2h" else []

an_hour :
    selected_ttl decimal form (
      page_max_ttl (
        some
          (home_data mem_key_store json
            (Unit {0})
            (main_handlers none (load_config parsers environment))).max_ttl_seconds))
    ≡ ok 3600
unfolding selected_ttl page_max_ttl main_handlers load_config configured_handlers set_max_ttl
    env_duration text_eq codes
an_hour = refl

form-IsLong : All IsLongPreset form.presets
form-IsLong = (omega arith, (tt, tt))

chosen_ttl-load_config_example :
    let config = load_config parsers environment in
    let h = main_handlers none config in
    (1 ≤ config.rate_limit_create)
    × (1 ≤ config.rate_limit_fetch)
    × (h.max_ttl ≡ asked_limit parsers (environment (codes "MAX_TTL")))
    × (chosen_ttl h.max_ttl (pos 3600) ≡ some (3600 * 1000000000))
    × (min_ttl ≤ 3600 * 1000000000)
    × (3600 * 1000000000 ≤ h.max_ttl)
chosen_ttl-load_config_example =
    chosen_ttl-load_config parsers environment mem_key_store json (Unit {0}) none decimal form 3600
      form-IsLong an_hour
