-- ===== src/App/Secured.antt =====
-- From the environment to the handlers: what AUTH_ISSUER switches on.
use cj_beer_company.Prelude.{String, ◌≡◌, refl, false, Option, some}
use cj_beer_company.Prelude.Text.{is_empty}
use cj_beer_company.Dict.{Dict}
use cj_beer_company.Platform.Config.{Parsers, load}
use cj_beer_company.Platform.Config.WellFormed.{load-auth_issuer}
use cj_beer_company.Platform.Auth.{verify}
use cj_beer_company.Rest.Limiter.{TokenBucket}
use cj_beer_company.Rest.Facades.{Facades}
use cj_beer_company.Rest.Endpoints.{Request, role_of, serve}
use cj_beer_company.Rest.Endpoints.Secured.{IsSecured, serve-IsSecured}
use cj_beer_company.App.{Services, options_of, verifier_of}

module _ {W : Type 0} (services : Services W) (facades : Facades W) (parsers : Parsers)
    (environment : String → Option String) (issuer : String) where
  -- Where the environment names an issuer of tokens, a request to any route under /v1 is ended by the
  -- middleware with nothing behind the facades changed, or bears a token that the issuer's verifier
  -- accepts, for the keys and the audience of the configuration, of a principal with the role of the
  -- route, and the handler answers.
  pub load-IsSecured :
      environment "AUTH_ISSUER" ≡ some issuer
      → is_empty issuer ≡ false
      → {L : Type 0} (bucket : TokenBucket L) (role : String) (request : Request)
        (limiters : Dict L) (w : W)
      → role_of request.route ≡ some role
      → let cfg = load parsers environment in
        let served = serve (options_of services cfg) facades bucket request (limiters, w) in
        IsSecured
          (options_of services cfg)
          facades
          (verify (record {
            verifier = services.new_verifier issuer cfg.auth_jwks_url cfg.auth_client_id;
            client_id = cfg.auth_client_id;
          }))
          role
          request
          w
          (served.0, served.1.1)
  unfolding options_of verifier_of
  load-IsSecured named text bucket role request limiters w guarded =
      let cfg = load parsers environment in
      serve-IsSecured (options_of services cfg) facades _ role request
        (rw (load-auth_issuer parsers environment issuer named text, text) refl) guarded bucket
        limiters w
