-- ===== src/App.antt =====
-- internal/app/app.go: what New makes of a configuration for the HTTP server. The rest of New, which
-- constructs the parts, and Run, which starts them, are left out.
pub mod Secured
pub mod Wiring
pub mod Supervision
use cj_beer_company.Prelude.{
  ℕ, String, Bool, true, false, not, ◌&&◌, ◌||◌, Option, none, some, ◌==◌, leb, if◌then◌else◌,
}
use cj_beer_company.Prelude.Text.{is_empty}
use cj_beer_company.Outcome.{Result, Exec}
use cj_beer_company.Platform.Config.{Config}
use cj_beer_company.Platform.Auth.{IdToken, verify}
use cj_beer_company.Rest.{Principal}
use cj_beer_company.Rest.Endpoints.{Options, Response}

-- `rps <= 0` of a float64 by its bits: a zero, or a negative number
abbrev disables : ℕ → Bool
disables bits = bits == 0 || (leb 0x8000_0000_0000_0000 bits && leb bits 0xfff0_0000_0000_0000)

-- oidc.NewVerifier with the keys of the remote set, and Ping of the pool.
pub record Services (W : Type 0) : Type 0 where
  pub new_verifier : String → String → String → String → Result IdToken
  pub ping : Exec W Unit
  pub metrics_handler : Response

module _ {W : Type 0} (services : Services W) where
  unfoldable pub verifier_of : Config → Option (String → Result Principal)
  unfolding is_empty verify
  verifier_of cfg =
      if is_empty cfg.auth_issuer
      then none
      else some (
          verify (record {
            verifier = services.new_verifier cfg.auth_issuer cfg.auth_jwks_url cfg.auth_client_id;
            client_id = cfg.auth_client_id;
          }))

  -- rest.Options of New
  unfoldable pub options_of : Config → Options W
  unfolding verifier_of
  options_of cfg = record {
    ready = if is_empty cfg.db_url then none else some services.ping;
    verifier = verifier_of cfg;
    max_body_bytes = cfg.max_body_bytes;
    limited = not (disables cfg.rate_limit_rps);
    metrics_handler = some services.metrics_handler;
  }
