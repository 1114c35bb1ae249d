-- ===== src/Rest/Endpoints.antt =====
-- internal/rest/endpoints.go: the middleware and the routes of NewRouter. gin, which matches the path
-- and binds the body, is outside; so are metrics, tracing and request logging.
pub mod Secured
pub mod Posted
use cj_beer_company.Prelude.{
  ℕ, String, Bool, true, false, not, Option, none, some, List, if◌then◌else◌,
}
use cj_beer_company.Prelude.Int.{ℤ}
use cj_beer_company.CustomTypes.{Page, Time}
use cj_beer_company.Outcome.{Error, invalid, not_found, Result, ok, err, Exec}
use cj_beer_company.Dict.{Dict}
use cj_beer_company.Sales.ReadModel.{SalesOrderDto}
use cj_beer_company.Sales.Facade.{SalesOrderJson, Draws}
use cj_beer_company.Warehouses.ReadModel.{AvailabilityDto}
use cj_beer_company.Warehouses.Facade.{ProductionOrderJson}
use cj_beer_company.Rest.{
  Principal, Gate, passed, aborted, gate_of, body_limit, status_of, role_viewer, role_sales_manager,
  role_warehouse_operator,
}
use cj_beer_company.Rest.Query.{page_of}
use cj_beer_company.Rest.Limiter.{TokenBucket, rate_limit}
use cj_beer_company.Rest.Facades.{Facades}
use Prim.Native.String.{◌++◌ as ◌<>◌}

-- The route that gin finds for a request, with what the handler reads of it: ShouldBindJSON of the body
-- under the limit of its length, the texts of the query, the parameter of the path.
pub data Route : Type 0 where
  metrics : Route
  healthz : Route
  readyz : Route
  post_sales : Result SalesOrderJson → Route
  get_sales : Option String → Option String → Route
  get_sales_by_id : String → Route
  post_availability : Result ProductionOrderJson → Route
  get_availability : Option String → Option String → Route
  get_availability_by_id : String → Route
  unmatched : Route

-- `draws` are the ids and the time that the handler reads, `now` is the reading of the rate limiter.
pub record Request : Type 0 where
  pub route : Route
  pub client_ip : String
  pub content_length : ℤ
  pub authorization : String
  pub draws : Draws
  pub now : Time

-- The JSON objects of the responses. `problem` shows the text of an error;
-- `refusal` is the object a middleware answers with, whose text is left out.
pub data Content : Type 0 where
  nothing : Content
  status : String → Content
  refusal : Content
  problem : Error → Content
  internal_server_error : Content
  identified : String → Content
  paged_orders : List SalesOrderDto → Page → Content
  order : SalesOrderDto → Content
  paged_availabilities : List AvailabilityDto → Page → Content
  availability : AvailabilityDto → Content

pub record Response : Type 0 where
  pub code : ℕ
  pub location : Option String
  pub content : Content

-- Options; `limited` says that RateLimitRPS is positive.
pub record Options (W : Type 0) : Type 0 where
  pub ready : Option (Exec W Unit)
  pub verifier : Option (String → Result Principal)
  pub max_body_bytes : ℤ
  pub limited : Bool
  pub metrics_handler : Option Response

abbrev pub json : ℕ → Content → Response
json code content = record { code = code; location = none; content = content }

-- c.JSON of respondError
abbrev shown_of : Error → Content
shown_of (invalid message) = problem (invalid message)
shown_of not_found = problem not_found
shown_of _ = internal_server_error

unfoldable pub respond_error : Error → Response
unfolding status_of
respond_error e = json (status_of e) (shown_of e)

abbrev pub created : String → Response
created id = record { code = 201; location = some ("/v1/sales/" <> id); content = identified id }

-- requireRole of the routes under /v1; the others are open
abbrev pub role_of : Route → Option String
role_of (post_sales body) = some role_sales_manager
role_of (get_sales limit offset) = some role_viewer
role_of (get_sales_by_id id) = some role_viewer
role_of (post_availability body) = some role_warehouse_operator
role_of (get_availability limit offset) = some role_viewer
role_of (get_availability_by_id id) = some role_viewer
role_of _ = none

module _ {W : Type 0} where
  -- `if err != nil { respondError(c, err); return }`
  unfoldable pub reply : {A : Type 0} → (A → Response) → Result A × W → Response × W
  unfolding respond_error
  reply f (ok a, w) = (f a, w)
  reply f (err e, w) = (respond_error e, w)

  readiness : Result (Unit {0}) × W → Response × W
  readiness (ok u, w) = (json 200 (status "ready"), w)
  readiness (err e, w) = (json 503 (problem e), w)

  module _ (options : Options W) (facades : Facades W) where
    unfoldable pub handle : Draws → Route → W → Response × W
    unfolding reply readiness page_of
    handle draws metrics w = elim options.metrics_handler [
      | none ↦ (json 404 nothing, w)
      | some response ↦ (response, w)
    ]
    handle draws healthz w = (json 200 (status "ok"), w)
    handle draws readyz w = elim options.ready [
      | none ↦ (json 200 (status "ready"), w)
      | some ping ↦ readiness (ping w)
    ]
    handle draws (post_sales (err e)) w = (json 400 (problem e), w)
    handle draws (post_sales (ok body)) w = reply created (facades.create_sales_order draws body w)
    handle draws (get_sales limit offset) w =
        let page = page_of limit offset in
        reply (λ orders. json 200 (paged_orders orders page)) (facades.get_sales_orders page w)
    handle draws (get_sales_by_id id) w =
        reply (λ found. json 200 (order found)) (facades.get_sales_order id w)
    handle draws (post_availability (err e)) w = (json 400 (problem e), w)
    handle draws (post_availability (ok body)) w =
        reply (λ beer_id. json 202 (identified beer_id))
          (facades.update_availability_due_to_production_order draws.commit body w)
    handle draws (get_availability limit offset) w =
        let page = page_of limit offset in
        reply (λ stocks. json 200 (paged_availabilities stocks page))
          (facades.get_availabilities page w)
    handle draws (get_availability_by_id beer_id) w =
        reply (λ found. json 200 (availability found)) (facades.get_availability beer_id w)
    handle draws unmatched w = (json 404 nothing, w)

    -- The middleware of the group /v1.
    admit : Option String → String → Gate → Gate
    unfolding gate_of
    admit role authorization (aborted code) = aborted code
    admit none authorization (passed p) = passed p
    admit (some role) authorization (passed p) = gate_of options.verifier role authorization

    after_gates : Request → Gate → W → Response × W
    unfolding handle
    after_gates request (aborted code) w = (json code refusal, w)
    after_gates request (passed p) w = handle request.draws request.route w

    unfoldable pub gates : Request → Gate
    unfolding admit body_limit
    gates request =
        admit (role_of request.route) request.authorization
          (body_limit options.max_body_bytes request.content_length (passed none))

    -- The engine of NewRouter, over the limiters of the clients beside what lies behind the facades.
    unfoldable pub serve :
        {L : Type 0} → TokenBucket L → Request → Dict L × W → Response × (Dict L × W)
    unfolding rate_limit after_gates gates
    serve bucket request (limiters, w) =
        let called = rate_limit bucket options.limited request.now request.client_ip limiters in
        let (response, w') =
          after_gates request (if called.0 then gates request else aborted 429) w in
        (response, (called.1, w'))
