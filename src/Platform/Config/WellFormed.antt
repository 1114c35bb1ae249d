-- ===== src/Platform/Config/WellFormed.antt =====
-- What holds of a configuration, whatever the environment.
use cj_beer_company.Prelude.{
  String, ◌≡◌, refl, true, false, Option, none, some, List, [], ◌∷◌, All, Bool-cases, ◌⊎◌, inl, inr,
}
use cj_beer_company.Prelude.Text.{is_empty, trim_space, trim_space_twice}
use cj_beer_company.Platform.Config.{
  Parsers, given, or_else, app_env_of, app_env, trimmed, split_commas, list_of, get_env, get_list,
  jwks_url, load,
}
use Prim.Native.String.{◌++◌ as ◌<>◌}

-- The entry is not empty, and there is no white space around it.
abbrev pub IsTrimmed : String → Type 0
IsTrimmed entry = (is_empty entry ≡ false) × (trim_space entry ≡ entry)

trimmed-All : (entries : List String) → All IsTrimmed (trimmed entries)
unfolding trimmed
trimmed-All [] = tt
trimmed-All (entry ∷ entries) = elim (Bool-cases (is_empty (trim_space entry))) [
  | inl blank ↦ rw blank (trimmed-All entries)
  | inr text ↦ rw text ((text, trim_space_twice entry), trimmed-All entries)
]

list_of-All : (value : Option String) → All IsTrimmed (list_of value)
unfolding list_of
list_of-All none = tt
list_of-All (some value) = trimmed-All (split_commas value)

-- The environment gives no text.
abbrev pub IsUnset : Option String → Type 0
IsUnset none = Unit {0}
IsUnset (some value) = is_empty value ≡ true

-- What a variable of the environment makes of a setting: its text, or the fallback where it has none.
abbrev pub IsSetting : Option String → String → String → Type 0
IsSetting variable fallback setting =
    (IsUnset variable × (setting ≡ fallback))
    ⊎ ((variable ≡ some setting) × (is_empty setting ≡ false))

or_else-IsSetting :
    (fallback : String) (value : Option String)
    → IsSetting value fallback (or_else fallback (given value))
or_else-IsSetting fallback none = inl (tt, refl)
or_else-IsSetting fallback (some value) = elim (Bool-cases (is_empty value)) [
  | inl blank ↦ rw blank (inl (refl, refl))
  | inr text ↦ rw text (inr (refl, text))
]

module _ (parsers : Parsers) (environment : String → Option String) where
  app_env_of-text : (value : String) → is_empty (app_env_of parsers environment value) ≡ false
  unfolding app_env_of is_empty
  app_env_of-text String.[] = refl
  app_env_of-text (String.◌∷◌ c s) = refl

  jwks_url-IsSetting :
      (value : Option String) (issuer : String)
      → is_empty issuer ≡ false
      → IsSetting value
          (issuer <> "/protocol/openid-connect/certs")
          (jwks_url parsers environment (or_else "" (given value)) issuer)
  unfolding jwks_url is_empty
  jwks_url-IsSetting none issuer h = rw h (inl (tt, refl))
  jwks_url-IsSetting (some value) issuer h = elim (Bool-cases (is_empty value)) [
    | inl blank ↦ rw (blank, h) (inl (refl, refl))
    | inr text ↦ rw (text, text) (inr (refl, text))
  ]

  -- The issuer is that of the environment, where it names one.
  pub load-auth_issuer :
      (issuer : String)
      → environment "AUTH_ISSUER" ≡ some issuer
      → is_empty issuer ≡ false
      → (load parsers environment).auth_issuer ≡ issuer
  unfolding load get_env
  load-auth_issuer issuer named text = rw (named, text) refl

  -- Whatever the environment holds, a configuration names its environment; the address, the issuer of
  -- the tokens and their audience are those of the environment or the defaults ":8080", none and
  -- "brewup-api"; each of the trusted proxies is not empty and has no white space around it; and, if
  -- there is an issuer, its keys are at the place that the environment gives or else below the issuer, under
  -- "/protocol/openid-connect/certs".
  pub load-IsWellFormed :
      let c = load parsers environment in
      (is_empty c.app_env ≡ false)
      × IsSetting (environment "HTTP_ADDR") ":8080" c.http_addr
      × IsSetting (environment "AUTH_ISSUER") "" c.auth_issuer
      × IsSetting (environment "AUTH_CLIENT_ID") "brewup-api" c.auth_client_id
      × All IsTrimmed c.trusted_proxies
      × ((is_empty c.auth_issuer ≡ true)
          ⊎ IsSetting
              (environment "AUTH_JWKS_URL")
              (c.auth_issuer <> "/protocol/openid-connect/certs")
              c.auth_jwks_url)
  unfolding load app_env get_env get_list
  load-IsWellFormed = (
    app_env_of-text _,
    or_else-IsSetting ":8080" (environment "HTTP_ADDR"),
    or_else-IsSetting "" (environment "AUTH_ISSUER"),
    or_else-IsSetting "brewup-api" (environment "AUTH_CLIENT_ID"),
    list_of-All (given (environment "TRUSTED_PROXIES")),
    elim (Bool-cases (is_empty (get_env parsers environment "AUTH_ISSUER" ""))) [
      | inl off ↦ inl off
      | inr on ↦ inr (
          jwks_url-IsSetting (environment "AUTH_JWKS_URL")
            (get_env parsers environment "AUTH_ISSUER" "") on)
    ],
  )
