-- ===== src/Rest.antt =====
-- internal/rest: the gates before a handler, and the status of an error; internal/platform/auth: the
-- roles of a caller. Routing, gin and the verification of a token are outside.
pub mod Access
pub mod Query
pub mod Limiter
pub mod Facades
pub mod Endpoints
use cj_beer_company.Prelude.{
  ℕ, String, Bool, true, false, not, ◌||◌, Option, none, some, List, [], ◌∷◌, if◌then◌else◌,
}
use cj_beer_company.Prelude.Text.{is_empty, has_prefix, trim_prefix}
use cj_beer_company.Prelude.Int.{ℤ, pos, leb_ℤ, ltb_ℤ}
use cj_beer_company.Outcome.{Error, invalid, not_found, Result, ok, err}
use cj_beer_company.Warehouses.Availability.Held.{contains, hold}

abbrev pub role_viewer : String
role_viewer = "viewer"

abbrev pub role_sales_manager : String
role_sales_manager = "sales-manager"

abbrev pub role_warehouse_operator : String
role_warehouse_operator = "warehouse-operator"

pub record Principal : Type 0 where
  pub subject : String
  pub roles : List String

role_set : List String → List String → List String
unfolding hold
role_set set [] = set
role_set set (role ∷ roles) = role_set (hold role set) roles

unfoldable pub new_principal : String → List String → Principal
unfolding role_set
new_principal subject roles = record { subject = subject; roles = role_set [] roles }

unfoldable pub has_role : String → Principal → Bool
unfolding contains
has_role role p = contains role p.roles

-- What the request's context holds under principalKey, or the status that ends the request.
pub data Gate : Type 0 where
  passed : Option Principal → Gate
  aborted : ℕ → Gate

-- strings.CutPrefix
cut_prefix : String → String → Option String
unfolding has_prefix trim_prefix
cut_prefix s p = if has_prefix s p then some (trim_prefix s p) else none

verified : Result Principal → Gate
verified (ok principal) = passed (some principal)
verified (err e) = aborted 401

with_token : (String → Result Principal) → Option String → Gate
unfolding verified is_empty
with_token verify none = aborted 401
with_token verify (some token) = if is_empty token then aborted 401 else verified (verify token)

-- A TokenVerifier that is nil switches authentication off.
unfoldable pub authenticate : Option (String → Result Principal) → String → Gate
unfolding with_token cut_prefix
authenticate none header = passed none
authenticate (some verify) header = with_token verify (cut_prefix header "Bearer ")

-- MustGet panics without a principal, which `authenticate` does not let happen: status 500.
unfoldable pub require_role : Option (String → Result Principal) → String → Gate → Gate
unfolding has_role
require_role verifier role (aborted status) = aborted status
require_role none role (passed p) = passed p
require_role (some verify) role (passed none) = aborted 500
require_role (some verify) role (passed (some p)) =
    if not (has_role role p) then aborted 403 else passed (some p)

-- The middleware of a /v1 route, in its order.
unfoldable pub gate_of : Option (String → Result Principal) → String → String → Gate
unfolding authenticate require_role
gate_of verifier role header = require_role verifier role (authenticate verifier header)

-- bodyLimit, by the declared length of the body; a longer body than declared is cut off by the reader.
unfoldable pub body_limit : ℤ → ℤ → Gate → Gate
body_limit max_bytes content_length (aborted status) = aborted status
body_limit max_bytes content_length (passed p) =
    if leb_ℤ max_bytes (pos 0)
    then passed p
    else if ltb_ℤ max_bytes content_length
    then aborted 413
    else passed p

-- respondError
unfoldable pub status_of : Error → ℕ
status_of (invalid message) = 400
status_of not_found = 404
status_of _ = 500
