-- ===== src/Examples/Http.antt =====
-- Requests to the whole server, over the in-memory read models.
use cj_beer_company.Prelude.{
  ℕ, zero, suc, ◌≤◌, ◌≡◌, refl, true, Bool, none, some, [], ◌∷◌, str_eq, map, length, ltb, ◌⊎◌,
}
use cj_beer_company.Prelude.Int.{pos}
use cj_beer_company.Outcome.{ok}
use cj_beer_company.Dict.{lookup}
use cj_beer_company.Muflone.ServiceBus.{MessageType}
use cj_beer_company.Sales.ReadModel.{
  SalesOrderService, new_sales_order_service, get_sales_order, get_sales_orders,
}
use cj_beer_company.Sales.Facade.{SalesOrderQueries}
use cj_beer_company.Warehouses.Commands.{WarehouseCommand, command_name}
use cj_beer_company.Warehouses.ReadModel.{AvailabilityDto, AvailabilityService, get_availability}
use cj_beer_company.Warehouses.ReadModel.Listing.{get_availabilities}
use cj_beer_company.Warehouses.Facade.{ProductionOrderJson, AvailabilityQueries}
use cj_beer_company.Rest.{role_sales_manager}
use cj_beer_company.Rest.Limiter.{TokenBucket, max_tracked_ips, allow, allow-IsFair}
use cj_beer_company.Rest.Facades.{Facades, Modules, new_facades}
use cj_beer_company.Rest.Endpoints.{Request, Options, post_sales, post_availability, handle, serve}
use cj_beer_company.Rest.Endpoints.Secured.{IsSecured, serve-IsSecured}
use cj_beer_company.Rest.Endpoints.Posted.{IsRefused, IsReported, handle-posts}
use cj_beer_company.Rest.Endpoints.Posted as Posted
use cj_beer_company.Examples.Data.{codec, three_litres}
use cj_beer_company.Examples.Requests.{verify, Sent, bus, commands, draws, body}

-- Three requests each; the clock is not looked at.
abbrev pub bucket : TokenBucket ℕ
bucket = record {
  new_limiter = 3;
  allow = λ now tokens. elim tokens [ zero ↦ (Bool.false, 0) | suc n ↦ (true, n) ];
}

allow-IsFair_example :
    (length (allow bucket 5 "a" (("b", 2) ∷ [])).1 ≤ 10_001)
    × ((allow bucket 5 "a" (("b", 2) ∷ [])).0 ≡ true)
    × (lookup "a" (allow bucket 5 "a" (("b", 2) ∷ [])).1 ≡ some 2)
    × ((str_eq "a" "b" ≡ true)
        ⊎ (lookup "b" (allow bucket 5 "a" (("b", 2) ∷ [])).1 ≡ lookup "b" (("b", 2) ∷ []))
        ⊎ ((ltb max_tracked_ips 1 ≡ true)
            × (lookup "b" (allow bucket 5 "a" (("b", 2) ∷ [])).1 ≡ none)))
unfolding lookup
allow-IsFair_example = allow-IsFair bucket 5 "a" "b" (("b", 2) ∷ [])

abbrev ipa : AvailabilityDto
ipa = record { beer_id = "uu"; beer_name = "ipa"; quantity = three_litres }

abbrev ale : AvailabilityDto
ale = record { beer_id = "uuu"; beer_name = "ale"; quantity = three_litres }

abbrev pub orders : SalesOrderQueries SalesOrderService
unfolding get_sales_order get_sales_orders
orders = record {
  get_sales_order = λ id s. (get_sales_order id s, s);
  get_sales_orders = λ page s. (get_sales_orders page s, s);
}

abbrev pub stocks : AvailabilityQueries AvailabilityService
unfolding get_availability get_availabilities
stocks = record {
  get_availability = λ beer_id s. (get_availability beer_id s, s);
  get_availabilities = λ page s. (get_availabilities (map (λ entry. entry.1) s) page, s);
}

abbrev pub production_commands : MessageType WarehouseCommand
production_commands = record { message_name = command_name; marshal = λ c. ok [] }

abbrev pub State : Type 0
State = Modules SalesOrderService AvailabilityService Sent

abbrev pub at_start : State
at_start = record { sales = new_sales_order_service; warehouses = []; bus = [] }

abbrev pub facades : Facades State
unfolding new_facades
facades = new_facades codec bus commands production_commands orders stocks

abbrev options : Options State
options = record {
  ready = none;
  verifier = some verify;
  max_body_bytes = pos 1_048_576;
  limited = true;
  metrics_handler = none;
}

abbrev pub request : Request
request = record {
  route = post_sales (ok body);
  client_ip = "a";
  content_length = pos 300;
  authorization = "Bearer t";
  draws = draws;
  now = 5;
}

serve-IsSecured_example : IsSecured options facades verify role_sales_manager request at_start (
  (serve options facades bucket request ([], at_start)).0,
  (serve options facades bucket request ([], at_start)).1.1,
)
serve-IsSecured_example =
    serve-IsSecured options facades verify role_sales_manager request refl refl bucket [] at_start

abbrev production : ProductionOrderJson
production = record { beer_id = "uu"; beer_name = "ipa"; quantity = three_litres }

handle-posts_example :
    let ordered = handle options facades draws (post_sales (ok body)) at_start in
    let reported = handle options facades draws (post_availability (ok production)) at_start in
    (IsRefused at_start ordered
      ⊎ Posted.IsOrdered codec bus commands production_commands orders stocks options body at_start
          ordered)
    × (IsRefused at_start reported
        ⊎ IsReported codec bus commands production_commands orders stocks options production
            at_start reported)
unfolding facades new_facades
handle-posts_example =
    handle-posts codec bus commands production_commands orders stocks options draws body production
      at_start
