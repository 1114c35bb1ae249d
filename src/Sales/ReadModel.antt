-- ===== src/Sales/ReadModel.antt =====
-- internal/sales/readmodel: the dtos, the in-memory service, and the projections that write it.
-- Logging is left out, and the lock, since each method holds it throughout.
pub mod Order
pub mod Paging
pub mod Settled
pub mod InMemory
use cj_beer_company.Prelude.{
  ℕ, zero, suc, String, Bool, true, false, not, ◌&&◌, ◌||◌, Option, none, some, List, [], ◌∷◌, ◌++◌,
  map, drop, str_eq, if◌then◌else◌,
}
use cj_beer_company.Prelude.Int.{ℤ, pos, ltb_ℤ, pos_part}
use cj_beer_company.CustomTypes.{Uuid, UuidCodec, Time, Quantity, Price, Page}
use cj_beer_company.Outcome.{Result, ok, err, not_found, panicked}
use cj_beer_company.Dict.{Dict, lookup, insert}
use cj_beer_company.Sales.SharedKernel.{SalesOrderRowDto}
use cj_beer_company.Sales.Events.{
  SalesEvent, SalesOrderCreated, SalesOrderAllocated, SalesOrderAllocationRejected, order_created,
  order_allocated, order_rejected,
}

pub record SalesOrderRow : Type 0 where
  pub beer_id : String
  pub beer_name : String
  pub quantity : Quantity
  pub price : Price

pub record SalesOrderDto : Type 0 where
  pub id : String
  pub sales_order_number : String
  pub order_date : Time
  pub customer_id : String
  pub customer_name : String
  pub rows : List SalesOrderRow
  pub allocation_status : String
  pub rejection_reason : String

-- `orders` is the map, `order` the ids in the order of their arrival.
pub record SalesOrderService : Type 0 where
  pub orders : Dict SalesOrderDto
  pub order : List String

abbrev pub new_sales_order_service : SalesOrderService
new_sales_order_service = record { orders = []; order = [] }

-- dtos.SalesOrder{Id: id}; the zero dto has the id ""
abbrev pub stub : String → SalesOrderDto
stub id = record {
  id = id;
  sales_order_number = "";
  order_date = 0;
  customer_id = "";
  customer_name = "";
  rows = [];
  allocation_status = "";
  rejection_reason = "";
}

-- The second `if`: a new order is pending.
abbrev pub or_pending : SalesOrderDto → SalesOrderDto
or_pending order =
    if str_eq order.allocation_status ""
    then record order { allocation_status = "pending" }
    else order

abbrev pub is_open_status : String → Bool
is_open_status status = str_eq status "" || str_eq status "pending"

upsert : SalesOrderDto → Option SalesOrderDto → SalesOrderService → SalesOrderService
unfolding insert
upsert order none s = record {
  orders = insert order.id (or_pending order) s.orders;
  order = s.order ++ order.id ∷ [];
}
upsert order (some existing) s =
    let kept =
      if is_open_status existing.allocation_status then or_pending order else record order {
        allocation_status = existing.allocation_status;
        rejection_reason = existing.rejection_reason;
      } in
    record s { orders = insert order.id kept s.orders }

unfoldable pub create_sales_order_dto : SalesOrderDto → SalesOrderService → SalesOrderService
unfolding upsert lookup
create_sales_order_dto order s = upsert order (lookup order.id s.orders) s

set_status : String → String → String → Option SalesOrderDto → SalesOrderService → SalesOrderService
unfolding insert
set_status id status reason none s = record {
  orders =
      insert id (record (stub id) { allocation_status = status; rejection_reason = reason })
        s.orders;
  order = s.order ++ id ∷ [];
}
set_status id status reason (some order) s = record s {
  orders =
      insert id (record order { allocation_status = status; rejection_reason = reason }) s.orders;
}

unfoldable pub update_allocation_status :
    String → String → String → SalesOrderService → SalesOrderService
unfolding set_status lookup
update_allocation_status id status reason s = set_status id status reason (lookup id s.orders) s

or_not_found : Option SalesOrderDto → Result SalesOrderDto
or_not_found none = err not_found
or_not_found (some order) = ok order

unfoldable pub get_sales_order : String → SalesOrderService → Result SalesOrderDto
unfolding or_not_found lookup
get_sales_order id s = or_not_found (lookup id s.orders)

-- s.orders[id], which is the zero dto where the key is missing
or_zero : Option SalesOrderDto → SalesOrderDto
or_zero none = stub ""
or_zero (some order) = order

unfoldable pub order_at : SalesOrderService → String → SalesOrderDto
unfolding or_zero lookup
order_at s id = or_zero (lookup id s.orders)

-- The loop of GetSalesOrders, with room for `n` more orders and the ids from the index on.
page_loop : SalesOrderService → ℕ → List String → List SalesOrderDto
unfolding order_at
page_loop s zero ids = []
page_loop s (suc n) [] = []
page_loop s (suc n) (id ∷ ids) = order_at s id ∷ page_loop s n ids

-- `make` panics on a negative limit, the index on a negative offset, if the loop is entered.
unfoldable pub get_sales_orders : Page → SalesOrderService → Result (List SalesOrderDto)
unfolding page_loop
get_sales_orders page s =
    if ltb_ℤ page.limit (pos 0) || (ltb_ℤ page.offset (pos 0) && ltb_ℤ (pos 0) page.limit)
    then err panicked
    else ok (page_loop s (pos_part page.limit) (drop (pos_part page.offset) s.order))

module _ (uuids : UuidCodec) where
  dto_row : SalesOrderRowDto → SalesOrderRow
  dto_row row = record {
    beer_id = uuids.to_string row.beer_id.value;
    beer_name = row.beer_name.value;
    quantity = row.quantity;
    price = row.price;
  }

  -- the dto that SalesOrderCreatedEventHandler.Handle builds
  unfoldable pub created_dto : SalesOrderCreated → SalesOrderDto
  unfolding dto_row
  created_dto event = record {
    id = uuids.to_string event.sales_order_id.value;
    sales_order_number = event.sales_order_number.value;
    order_date = event.order_date.value;
    customer_id = uuids.to_string event.customer_id.value;
    customer_name = event.customer_name.value;
    rows = map dto_row event.rows;
    allocation_status = "";
    rejection_reason = "";
  }

  -- SalesOrderCreatedEventHandler.Handle
  unfoldable pub project_created : SalesOrderCreated → SalesOrderService → SalesOrderService
  unfolding create_sales_order_dto created_dto
  project_created event = create_sales_order_dto (created_dto event)

  unfoldable pub on_sales_order_allocated :
      SalesOrderAllocated → SalesOrderService → SalesOrderService
  unfolding update_allocation_status
  on_sales_order_allocated event =
      update_allocation_status (uuids.to_string event.sales_order_id.value) "allocated" ""

  unfoldable pub on_sales_order_allocation_rejected :
      SalesOrderAllocationRejected → SalesOrderService → SalesOrderService
  unfolding update_allocation_status
  on_sales_order_allocation_rejected event =
      update_allocation_status (uuids.to_string event.sales_order_id.value) "rejected" event.reason

  -- the switch of RebuildReadModel
  unfoldable pub project : SalesEvent → SalesOrderService → SalesOrderService
  unfolding project_created on_sales_order_allocated on_sales_order_allocation_rejected
  project (order_created e) s = project_created e s
  project (order_allocated e) s = on_sales_order_allocated e s
  project (order_rejected e) s = on_sales_order_allocation_rejected e s
