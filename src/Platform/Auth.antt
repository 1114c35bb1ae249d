-- ===== src/Platform/Auth.antt =====
-- internal/platform/auth/auth.go, the verifier of tokens. The verifier of go-oidc, with the issuer's keys,
-- is an argument; the Principal stands in Rest.
use cj_beer_company.Prelude.{
  String, ◌≡◌, refl, ◌∙◌, ◌||◌, Option, none, some, List, [], ◌∷◌, ◌++◌, arith, inl, inr,
}
use cj_beer_company.Outcome.{Result, ok, err, failed, Result-cases, ok-injective}
use cj_beer_company.Dict.{Dict, lookup}
use cj_beer_company.Warehouses.Availability.Held.{contains}
use cj_beer_company.Rest.{Principal, new_principal, has_role}
use cj_beer_company.Rest.Access.{has_role-new_principal}

-- keycloakClaims: the roles of the realm, and those of each client.
pub record KeycloakClaims : Type 0 where
  pub realm_roles : List String
  pub resource_roles : Dict (List String)

-- What oidc.IDToken is asked for: its subject, and its Claims.
pub record IdToken : Type 0 where
  pub subject : String
  pub claims : Result KeycloakClaims

pub record OidcVerifier : Type 0 where
  pub verifier : String → Result IdToken
  pub client_id : String

-- claims.ResourceAccess[v.clientID].Roles
abbrev pub roles_or_none : Option (List String) → List String
roles_or_none none = []
roles_or_none (some roles) = roles

unfoldable pub roles_of : String → KeycloakClaims → List String
unfolding lookup
roles_of client_id claims =
    claims.realm_roles ++ roles_or_none (lookup client_id claims.resource_roles)

principal_of : String → String → Result KeycloakClaims → Result Principal
unfolding new_principal roles_of
principal_of client_id subject (err e) = err (failed "parse token claims")
principal_of client_id subject (ok claims) = ok (new_principal subject (roles_of client_id claims))

caller_of : String → Result IdToken → Result Principal
unfolding principal_of
caller_of client_id (err e) = err (failed "verify token")
caller_of client_id (ok token) = principal_of client_id token.subject token.claims

unfoldable pub verify : OidcVerifier → String → Result Principal
unfolding caller_of
verify v raw_token = caller_of v.client_id (v.verifier raw_token)

contains-append :
    (k : String) (js is : List String) → contains k (js ++ is) ≡ (contains k js || contains k is)
unfolding contains
contains-append k [] is = refl
contains-append k (j ∷ js) is = ground (arith, contains-append k js is)

-- A caller is let in only with a token that go-oidc accepts and whose claims can be read, under the
-- subject of the token, and has exactly the roles that the token gives in the realm or for the client.
pub verify-HasRoles :
    (v : OidcVerifier) (raw_token role : String) (p : Principal)
    → verify v raw_token ≡ ok p
    → (token : IdToken) × (claims : KeycloakClaims) × (v.verifier raw_token ≡ ok token)
      × (token.claims ≡ ok claims)
      × (p.subject ≡ token.subject)
      × (has_role role p ≡ (
          contains role claims.realm_roles
          || contains role (roles_or_none (lookup v.client_id claims.resource_roles))))
unfolding verify principal_of new_principal
verify-HasRoles v raw_token role p h = elim (Result-cases (v.verifier raw_token)) [
  | inr (e, refused) ↦ cc (rw refused at h)
  | inl (token, accepted) ↦ elim (Result-cases token.claims) [
    | inr (e, unread) ↦ cc (rw (accepted, unread) at h)
    | inl (claims, read) ↦
        let is = ok-injective (rw (accepted, read) at h) in
        (
          token,
          claims,
          accepted,
          read,
          rw (← is) refl,
          rw (← is) (
              has_role-new_principal role token.subject (roles_of v.client_id claims)
              ∙ contains-append role claims.realm_roles
                  (roles_or_none (lookup v.client_id claims.resource_roles))),
        )
  ]
]
