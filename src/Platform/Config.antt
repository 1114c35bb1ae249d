-- ===== src/Platform/Config.antt =====
-- internal/platform/config/config.go. The process environment is an argument, and so are the functions of
-- the libraries that parse a float64 or a duration and that lower the case of a text.
pub mod WellFormed
use cj_beer_company.Prelude.{
  ℕ, String, Bool, true, false, not, ◌&&◌, ◌||◌, Option, none, some, List, [], ◌∷◌, ◌==◌, str_eq,
  if◌then◌else◌,
}
use cj_beer_company.Prelude.Int.{ℤ, pos}
use cj_beer_company.Prelude.Text.{is_empty, trim_space}
use cj_beer_company.Prelude.Number.{Parsed, parsed, atoi}
use cj_beer_company.Warehouses.Availability.Held.{contains}
use Prim.Native.Char.{code, Char}
use Prim.Native.String.{◌++◌ as ◌<>◌}

-- strings.ToLower, and strconv.ParseFloat and time.ParseDuration where they succeed. A float64 is its bit
-- pattern, a time.Duration a number of nanoseconds.
pub record Parsers : Type 0 where
  pub to_lower : String → String
  pub parse_float : String → Option ℕ
  pub parse_duration : String → Option ℤ

pub record Config : Type 0 where
  pub app_env : String
  pub http_addr : String
  pub log_level : String
  pub gin_mode : String
  pub db_url : String
  pub broker_url : String
  pub saga_step_timeout : ℤ
  pub auth_issuer : String
  pub auth_jwks_url : String
  pub auth_client_id : String
  pub otel_endpoint : String
  pub service_name : String
  pub rate_limit_rps : ℕ
  pub rate_limit_burst : ℤ
  pub max_body_bytes : ℤ
  pub trusted_proxies : List String
  pub outbox_interval : ℤ

-- 50 as a float64
abbrev fifty : ℕ
fifty = 0x4049_0000_0000_0000

abbrev known_environments : List String
known_environments = "local" ∷ "dev" ∷ "staging" ∷ "prod" ∷ []

unfoldable pub environment_recognized : Config → Bool
unfolding contains
environment_recognized c = contains c.app_env known_environments

-- `if value, ok := os.LookupEnv(key); ok && value != ""`
abbrev given : Option String → Option String
given none = none
given (some value) = if is_empty value then none else some value

abbrev or_else : {A : Type 0} → A → Option A → A
or_else fallback none = fallback
or_else fallback (some a) = a

abbrev bind : {A : Type 0} → Option String → (String → Option A) → Option A
bind none f = none
bind (some value) f = f value

abbrev int_of : String → Option ℤ
int_of value = elim (atoi value) [ parsed n ↦ some n | _ ↦ none ]

-- the texts between the commas
with_char : Char → List String → List String
with_char c [] = String.◌∷◌ c String.[] ∷ []
with_char c (x ∷ xs) = String.◌∷◌ c x ∷ xs

split_commas : String → List String
unfolding with_char
split_commas String.[] = String.[] ∷ []
split_commas (String.◌∷◌ c s) =
    let rest = split_commas s in if code c == 0x2c then String.[] ∷ rest else with_char c rest

-- the loop of getList
trimmed : List String → List String
unfolding trim_space is_empty
trimmed [] = []
trimmed (entry ∷ entries) =
    let rest = trimmed entries in
    let text = trim_space entry in if is_empty text then rest else text ∷ rest

list_of : Option String → List String
unfolding trimmed split_commas
list_of none = []
list_of (some value) = trimmed (split_commas value)

module _ (parsers : Parsers) (environment : String → Option String) where
  app_env_of : String → String
  unfolding is_empty
  app_env_of value = if is_empty value then "local" else value

  app_env : String
  unfolding app_env_of trim_space
  app_env = app_env_of (parsers.to_lower (trim_space (or_else "" (environment "APP_ENV"))))

  get_env : String → String → String
  unfolding is_empty
  get_env key fallback = or_else fallback (given (environment key))

  get_list : String → List String
  unfolding list_of is_empty
  get_list key = list_of (given (environment key))

  get_int : String → ℤ → ℤ
  unfolding atoi is_empty
  get_int key fallback = or_else fallback (bind (given (environment key)) int_of)

  get_float : String → ℕ → ℕ
  unfolding is_empty
  get_float key fallback = or_else fallback (bind (given (environment key)) parsers.parse_float)

  get_duration : String → ℤ → ℤ
  unfolding is_empty
  get_duration key fallback =
      or_else fallback (bind (given (environment key)) parsers.parse_duration)

  -- the `if` at the end of Load
  jwks_url : String → String → String
  unfolding is_empty
  jwks_url url issuer =
      if is_empty url && not (is_empty issuer)
      then issuer <> "/protocol/openid-connect/certs"
      else url

  unfoldable pub load : Config
  unfolding app_env get_env get_list get_int get_float get_duration jwks_url
  load = record {
    app_env = app_env;
    http_addr = get_env "HTTP_ADDR" ":8080";
    log_level = get_env "LOG_LEVEL" "info";
    gin_mode = get_env "GIN_MODE" "release";
    db_url = get_env "DB_URL" "";
    broker_url = get_env "BROKER_URL" "";
    saga_step_timeout = get_duration "SAGA_STEP_TIMEOUT" (pos 300_000_000_000);
    auth_issuer = get_env "AUTH_ISSUER" "";
    auth_jwks_url = jwks_url (get_env "AUTH_JWKS_URL" "") (get_env "AUTH_ISSUER" "");
    auth_client_id = get_env "AUTH_CLIENT_ID" "brewup-api";
    otel_endpoint = get_env "OTEL_EXPORTER_OTLP_ENDPOINT" "";
    service_name = get_env "OTEL_SERVICE_NAME" "cj-beer-company";
    rate_limit_rps = get_float "RATE_LIMIT_RPS" fifty;
    rate_limit_burst = get_int "RATE_LIMIT_BURST" (pos 100);
    max_body_bytes = get_int "MAX_BODY_BYTES" (pos 1_048_576);
    trusted_proxies = get_list "TRUSTED_PROXIES";
    outbox_interval = get_duration "OUTBOX_INTERVAL" (pos 250_000_000);
  }
