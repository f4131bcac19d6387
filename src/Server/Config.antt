-- ===== src/Server/Config.antt =====
-- config.go and the choice of the store in main.go: what the environment says.
pub mod Limits
use key_bank.Base.{
  ℕ, ◌*◌, ◌||◌, Bool, true, false, [], ◌∷◌, Option, none, some, Text, Bytes, codes, ltb,
  if◌then◌else◌,
}
use key_bank.Js.Url.{text_eq}
use key_bank.Server.Go.{Try, fails, gives, ℤ, pos, negsuc, second}
use key_bank.Server.Handlers.{PageData, Handlers, configured_handlers}

pub record Config : Type 0 where
  pub port : Text
  pub redis_addr : Text
  pub store_backend : Text
  pub auto_hide_seconds : ℕ
  pub rate_limit_create : ℕ
  pub rate_limit_fetch : ℕ
  pub max_ttl : ℕ
  pub trust_xff : Bool

-- `strconv.Atoi` and `time.ParseDuration`
pub record Parsers : Type 0 where
  pub atoi : Text → Try ℤ
  pub parse_duration : Text → Try ℤ

-- `os.Getenv`; a variable that is missing is empty.
abbrev pub Environment : Type 0
Environment = Text → Text

abbrev pub or_default : Text → Text → Text
or_default [] def = def
or_default (c ∷ v) def = c ∷ v

unfoldable pub env_string : Environment → Text → Text → Text
env_string env key def = or_default (env key) def

abbrev pub positive_or : Try ℤ → ℕ → ℕ
positive_or fails def = def
positive_or (gives (negsuc n)) def = def
positive_or (gives (pos n)) def = if ltb 0 n then n else def

abbrev pub int_or : Parsers → Text → ℕ → ℕ
int_or parsers [] def = def
int_or parsers (c ∷ v) def = positive_or (parsers.atoi (c ∷ v)) def

unfoldable pub env_int : Parsers → Environment → Text → ℕ → ℕ
env_int parsers env key def = int_or parsers (env key) def

abbrev pub bool_or : Text → Bool → Bool
bool_or [] def = def
bool_or (c ∷ v) def =
    text_eq (c ∷ v) (codes "1")
    || (text_eq (c ∷ v) (codes "true")
        || (text_eq (c ∷ v) (codes "True") || text_eq (c ∷ v) (codes "TRUE")))

unfoldable pub env_bool : Environment → Text → Bool → Bool
env_bool env key def = bool_or (env key) def

abbrev pub min_duration : ℕ
min_duration = 60 * second

abbrev pub minute_or : Try ℤ → ℕ → ℕ
minute_or fails def = def
minute_or (gives (negsuc n)) def = def
minute_or (gives (pos n)) def = if ltb n min_duration then def else n

abbrev pub duration_or : Parsers → Text → ℕ → ℕ
duration_or parsers [] def = def
duration_or parsers (c ∷ v) def = minute_or (parsers.parse_duration (c ∷ v)) def

unfoldable pub env_duration : Parsers → Environment → Text → ℕ → ℕ
env_duration parsers env key def = duration_or parsers (env key) def

unfoldable pub load_config : Parsers → Environment → Config
unfolding env_string env_int env_bool env_duration
load_config parsers env = record {
  port = env_string env (codes "PORT") (codes "14000");
  redis_addr = env_string env (codes "REDIS_ADDR") (codes "localhost:6379");
  store_backend = env_string env (codes "KEYBANK_STORE") (codes "redis");
  auto_hide_seconds = env_int parsers env (codes "AUTO_HIDE_SECONDS") 60;
  rate_limit_create = env_int parsers env (codes "RATE_LIMIT_CREATE") 30;
  rate_limit_fetch = env_int parsers env (codes "RATE_LIMIT_FETCH") 60;
  max_ttl = env_duration parsers env (codes "MAX_TTL") (604800 * second);
  trust_xff = env_bool env (codes "TRUST_XFF") false;
}

-- The switch of `main`: the limits of the limiters, where there are any.
pub data Backend : Type 0 where
  in_memory : Backend
  in_redis : Text → ℕ → ℕ → Backend

unfoldable pub backend : Config → Backend
backend config =
    if text_eq config.store_backend (codes "mem")
    then in_memory
    else in_redis config.redis_addr config.rate_limit_create config.rate_limit_fetch

-- The handlers that `main` has made.
unfoldable pub main_handlers : Option (PageData → Try Bytes) → Config → Handlers
unfolding configured_handlers
main_handlers templates config =
    configured_handlers templates (pos config.auto_hide_seconds) (pos config.max_ttl)
