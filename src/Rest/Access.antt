-- ===== src/Rest/Access.antt =====
-- Who gets to a handler.
use cj_beer_company.Prelude.{
  String, ◌≡◌, refl, true, false, ◌||◌, none, some, List, [], ◌∷◌, arith, Bool-cases, inl, inr, ◌∙◌,
  ◌⊎◌,
}
use cj_beer_company.Prelude.Text.{is_empty, has_prefix, trim_prefix}
use cj_beer_company.Outcome.{Result, ok, err}
use cj_beer_company.Warehouses.Availability.Held.{contains, hold, contains-hold}
use cj_beer_company.Rest.{
  Principal, role_set, new_principal, has_role, Gate, passed, aborted, cut_prefix, with_token,
  verified, authenticate, require_role, gate_of,
}

role_set-contains :
    (role : String) (roles set : List String)
    → contains role (role_set set roles) ≡ (contains role set || contains role roles)
unfolding role_set contains
role_set-contains role [] set = ground arith
role_set-contains role (r ∷ roles) set =
    role_set-contains role roles (hold r set) ∙ rw contains-hold (ground arith)

-- A principal has exactly the roles that its token lists.
pub has_role-new_principal :
    (role subject : String) (roles : List String)
    → has_role role (new_principal subject roles) ≡ contains role roles
unfolding has_role new_principal contains
has_role-new_principal role subject roles = role_set-contains role roles []

-- What a request that reached the handler shows.
abbrev pub IsEntitled : (String → Result Principal) → String → String → Gate → Type 0
IsEntitled verify role header (aborted status) = (status ≡ 401) ⊎ (status ≡ 403)
IsEntitled verify role header (passed none) = ⊥
IsEntitled verify role header (passed (some p)) =
    (has_prefix header "Bearer " ≡ true)
    × (is_empty (trim_prefix header "Bearer ") ≡ false)
    × (verify (trim_prefix header "Bearer ") ≡ ok p)
    × (has_role role p ≡ true)

module _ (verify : String → Result Principal) (role header : String) where
  abbrev token : String
  token = trim_prefix header "Bearer "

  verified-IsEntitled :
      (r : Result Principal)
      → verify token ≡ r
      → has_prefix header "Bearer " ≡ true
      → is_empty token ≡ false
      → IsEntitled verify role header (require_role (some verify) role (verified r))
  unfolding verified require_role
  verified-IsEntitled (err e) v prefixed given = inl refl
  verified-IsEntitled (ok p) v prefixed given = elim (Bool-cases (has_role role p)) [
    | inl has ↦ rw has (prefixed, given, v, has)
    | inr lacks ↦ rw lacks (inr refl)
  ]

  gate_of-IsEntitled : IsEntitled verify role header (gate_of (some verify) role header)
  unfolding gate_of authenticate cut_prefix with_token require_role
  gate_of-IsEntitled = elim (Bool-cases (has_prefix header "Bearer ")) [
    | inr bare ↦ rw bare (inl refl)
    | inl prefixed ↦ elim (Bool-cases (is_empty token)) [
      | inl blank ↦ rw (prefixed, blank) (inl refl)
      | inr given ↦ rw (prefixed, given) (verified-IsEntitled (verify token) refl prefixed given)
    ]
  ]

  -- With authentication on, a request reaches the handler with a principal only if its header bears a
  -- token that is not empty, the verifier accepts the token for that principal, and the principal has
  -- the role of the route; any other request ends with status 401 or 403. And every request that
  -- fulfils all this reaches the handler.
  pub gate_of-admits :
      IsEntitled verify role header (gate_of (some verify) role header)
      × ((p : Principal)
          → has_prefix header "Bearer " ≡ true
          → is_empty (trim_prefix header "Bearer ") ≡ false
          → verify (trim_prefix header "Bearer ") ≡ ok p
          → has_role role p ≡ true
          → gate_of (some verify) role header ≡ passed (some p))
  unfolding gate_of authenticate cut_prefix with_token require_role verified
  gate_of-admits = (gate_of-IsEntitled, λ p prefixed given v has. rw (prefixed, given, v, has) refl)
