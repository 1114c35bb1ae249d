-- ===== src/Rest/Endpoints/Secured.antt =====
-- What a request has to show before a handler runs.
use cj_beer_company.Prelude.{
  ℕ, String, ◌≡◌, refl, Bool, true, false, none, some, Bool-cases, inl, inr, ◌⊎◌, if◌then◌else◌,
}
use cj_beer_company.Prelude.Int.{pos, leb_ℤ, ltb_ℤ}
use cj_beer_company.Outcome.{Result}
use cj_beer_company.Dict.{Dict}
use cj_beer_company.Rest.{Principal, Gate, passed, aborted, gate_of, body_limit}
use cj_beer_company.Rest.Access.{IsEntitled, gate_of-admits}
use cj_beer_company.Rest.Limiter.{TokenBucket, rate_limit}
use cj_beer_company.Rest.Facades.{Facades}
use cj_beer_company.Rest.Endpoints.{
  Request, Response, Options, role_of, handle, admit, after_gates, gates, serve,
}

-- The codes with which the middleware ends a request.
abbrev pub IsStopped : ℕ → Type 0
IsStopped code = (code ≡ 401) ⊎ (code ≡ 403) ⊎ (code ≡ 413) ⊎ (code ≡ 429)

module _ {W : Type 0} (options : Options W) (facades : Facades W)
    (verify : String → Result Principal) (role : String) (request : Request) where
  -- The middleware ended the request and nothing behind the facades was touched, or the request shows a
  -- token of a principal with the role, and the handler of its route answers.
  pub data IsSecured (w : W) (r : Response × W) : Type 0 where
    stopped : IsStopped r.0.code → r.1 ≡ w → IsSecured w r
    entitled :
        (p : Principal)
        → IsEntitled verify role request.authorization (passed (some p))
        → r ≡ handle options facades request.draws request.route w
        → IsSecured w r

  after_gates-IsSecured :
      (gate : Gate) (w : W)
      → IsEntitled verify role request.authorization gate
      → IsSecured w (after_gates options facades request gate w)
  unfolding after_gates
  after_gates-IsSecured (aborted code) w (inl h) = stopped (inl h) refl
  after_gates-IsSecured (aborted code) w (inr h) = stopped (inr (inl h)) refl
  after_gates-IsSecured (passed none) w h = absurd h
  after_gates-IsSecured (passed (some p)) w h = entitled p h refl

  module _ (on : options.verifier ≡ some verify) (guarded : role_of request.route ≡ some role) where
    gates-cases :
        (gates options facades request ≡ aborted 413)
        ⊎ (gates options facades request ≡ gate_of (some verify) role request.authorization)
    unfolding gates admit body_limit
    gates-cases = elim (Bool-cases (leb_ℤ options.max_body_bytes (pos 0))) [
      | inl off ↦ inr (rw (off, guarded, on) refl)
      | inr limit ↦ elim (Bool-cases (ltb_ℤ options.max_body_bytes request.content_length)) [
        | inl long ↦ inl (rw (limit, long) refl)
        | inr short ↦ inr (rw (limit, short, guarded, on) refl)
      ]
    ]

    gates-IsSecured :
        (w : W)
        → IsSecured w (after_gates options facades request (gates options facades request) w)
    unfolding after_gates
    gates-IsSecured w = elim gates-cases [
      | inl long ↦ rw long (stopped (inr (inr (inl refl))) refl)
      | inr gated ↦ rw gated (
          after_gates-IsSecured (gate_of (some verify) role request.authorization) w
            (gate_of-admits verify role request.authorization).0)
    ]

    limited-IsSecured :
        (allowed : Bool) (w : W)
        → IsSecured w (
            after_gates options facades request
              (if allowed then gates options facades request else aborted 429)
              w)
    unfolding after_gates
    limited-IsSecured true w = gates-IsSecured w
    limited-IsSecured false w = stopped (inr (inr (inr refl))) refl

    -- With authentication on, whatever a request to a route under /v1 is, either the middleware ends it
    -- with status 401, 403, 413 or 429 and nothing behind the facades is read or changed, or it bears a
    -- token that is accepted, of a principal with the role of the route, and the handler answers.
    pub serve-IsSecured :
        {L : Type 0} (bucket : TokenBucket L) (limiters : Dict L) (w : W)
        → let served = serve options facades bucket request (limiters, w) in
          IsSecured w (served.0, served.1.1)
    unfolding serve
    serve-IsSecured bucket limiters w =
        limited-IsSecured
          (rate_limit bucket options.limited request.now request.client_ip limiters).0 w
