-- ===== src/Examples/Start.antt =====
-- A configuration, the tokens that it accepts, and a request under it.
use cj_beer_company.Prelude.{
  String, ◌≡◌, refl, false, true, ◌||◌, ◌⊎◌, Option, none, some, [], ◌∷◌, All, str_eq,
  if◌then◌else◌,
}
use cj_beer_company.Prelude.Text.{is_empty}
use cj_beer_company.Outcome.{Result, ok, err, not_found}
use cj_beer_company.Dict.{lookup}
use cj_beer_company.Warehouses.Availability.Held.{contains}
use cj_beer_company.Rest.{Principal, new_principal, has_role, role_viewer, role_sales_manager}
use cj_beer_company.Rest.Endpoints.{Content, serve}
use cj_beer_company.Rest.Endpoints.Secured.{IsSecured}
use cj_beer_company.Platform.Config.{Parsers, load}
use cj_beer_company.Platform.Config.WellFormed.{IsTrimmed, IsSetting, load-IsWellFormed}
use cj_beer_company.Platform.Auth.{
  KeycloakClaims, IdToken, OidcVerifier, roles_or_none, verify, verify-HasRoles,
}
use cj_beer_company.App.{Services, options_of}
use cj_beer_company.App.Secured.{load-IsSecured}
use cj_beer_company.Examples.Http.{State, at_start, facades, bucket, request}
use Prim.Native.String.{◌++◌ as ◌<>◌}

abbrev parsers : Parsers
parsers = record { to_lower = λ s. s; parse_float = λ s. none; parse_duration = λ s. none }

abbrev environment : String → Option String
environment key =
    if str_eq key "AUTH_ISSUER"
    then some "https://id"
    else if str_eq key "TRUSTED_PROXIES"
    then some "10.0.0.1, ,10.0.0.2"
    else none

load-IsWellFormed_example :
    let c = load parsers environment in
    (is_empty c.app_env ≡ false)
    × IsSetting (environment "HTTP_ADDR") ":8080" c.http_addr
    × IsSetting (environment "AUTH_ISSUER") "" c.auth_issuer
    × IsSetting (environment "AUTH_CLIENT_ID") "brewup-api" c.auth_client_id
    × All IsTrimmed c.trusted_proxies
    × ((is_empty c.auth_issuer ≡ true)
        ⊎ IsSetting
            (environment "AUTH_JWKS_URL")
            (c.auth_issuer <> "/protocol/openid-connect/certs")
            c.auth_jwks_url)
load-IsWellFormed_example = load-IsWellFormed parsers environment

abbrev claims : KeycloakClaims
claims = record {
  realm_roles = role_viewer ∷ [];
  resource_roles = ("brewup-api", role_sales_manager ∷ []) ∷ [];
}

abbrev token_of : String → Result IdToken
token_of raw =
    if str_eq raw "t" then ok (record { subject = "ann"; claims = ok claims }) else err not_found

abbrev oidc : OidcVerifier
oidc = record { verifier = token_of; client_id = "brewup-api" }

abbrev ann : Principal
unfolding new_principal
ann = new_principal "ann" (role_viewer ∷ role_sales_manager ∷ [])

verify-HasRoles_example :
    (token : IdToken) × (found : KeycloakClaims) × (oidc.verifier "t" ≡ ok token)
    × (token.claims ≡ ok found)
    × (ann.subject ≡ token.subject)
    × (has_role role_sales_manager ann ≡ (
        contains role_sales_manager found.realm_roles
        || contains role_sales_manager (roles_or_none (lookup "brewup-api" found.resource_roles))))
unfolding ann verify lookup new_principal
verify-HasRoles_example = verify-HasRoles oidc "t" role_sales_manager ann refl

abbrev services : Services State
services = record {
  new_verifier = λ issuer jwks_url client_id. token_of;
  ping = λ w. (ok tt, w);
  metrics_handler = record { code = 200; location = none; content = Content.nothing };
}

load-IsSecured_example :
    IsSecured
      (options_of services (load parsers environment))
      facades
      (verify
        (record { verifier = token_of; client_id = (load parsers environment).auth_client_id }))
      role_sales_manager
      request
      at_start
      (
        (serve
            (options_of services (load parsers environment))
            facades
            bucket
            request
            ([], at_start)).0,
        (serve
            (options_of services (load parsers environment))
            facades
            bucket
            request
            ([], at_start)).1.1,
      )
unfolding is_empty
load-IsSecured_example =
    load-IsSecured services facades parsers environment "https://id" refl refl bucket
      role_sales_manager request [] at_start refl
