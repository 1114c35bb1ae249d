-- ===== src/Sales/SalesOrder.antt =====
-- internal/sales/domain/sales_order.go: the event-sourced sales order.
pub mod Settlement
use cj_beer_company.Prelude.{String, Bool, true, false, ◌||◌, List, [], ◌==◌, if◌then◌else◌}
use cj_beer_company.Prelude.Text.{trim_space, is_empty}
use cj_beer_company.CustomTypes.{Uuid}
use cj_beer_company.Outcome.{Error, invalid, Result, ok, err}
use cj_beer_company.Muflone.Aggregate.{Router, AggregateRoot, new_aggregate, raise_event}
use cj_beer_company.Sales.SharedKernel.{
  SalesOrderId, SalesOrderNumber, OrderDate, CustomerId, CustomerName, SalesOrderRowDto,
}
use cj_beer_company.Sales.Events.{
  SalesEvent, SalesOrderCreated, order_created, order_allocated, order_rejected,
  new_sales_order_created, new_sales_order_allocated, new_sales_order_allocation_rejected,
}

-- `unset` is the empty string, of an order that no event has reached.
pub data AllocationStatus : Type 0 where
  unset pending allocated rejected : AllocationStatus

abbrev pub err_invalid_sales_order : Error
err_invalid_sales_order = invalid "sales order needs a number, a customer, and an order date"

abbrev pub err_allocation_conflict : Error
err_allocation_conflict = invalid "sales order allocation already settled differently"

pub record SalesOrder : Type 0 where
  pub sales_order_id : SalesOrderId
  pub sales_order_number : SalesOrderNumber
  pub order_date : OrderDate
  pub customer_id : CustomerId
  pub customer_name : CustomerName
  pub rows : List SalesOrderRowDto
  pub allocation : AllocationStatus
  pub rejection_reason : String

abbrev pub Aggregate : Type 0
Aggregate = AggregateRoot SalesOrder SalesEvent

abbrev pub empty : SalesOrder
empty = record {
  sales_order_id = record { value = 0 };
  sales_order_number = record { value = "" };
  order_date = record { value = 0 };
  customer_id = record { value = 0 };
  customer_name = record { value = "" };
  rows = [];
  allocation = unset;
  rejection_reason = "";
}

unfoldable pub apply_sales_order_created : SalesOrderCreated → SalesOrder → Uuid × SalesOrder
apply_sales_order_created event s = (
  event.sales_order_id.value,
  record s {
    sales_order_id = event.sales_order_id;
    sales_order_number = event.sales_order_number;
    order_date = event.order_date;
    customer_id = event.customer_id;
    customer_name = event.customer_name;
    rows = event.rows;
    allocation = pending;
  },
)

unfoldable pub route : SalesEvent → Uuid → SalesOrder → Uuid × SalesOrder
unfolding apply_sales_order_created
route (order_created e) id s = apply_sales_order_created e s
route (order_allocated e) id s = (id, record s { allocation = allocated })
route (order_rejected e) id s =
    (id, record s { allocation = rejected; rejection_reason = e.reason })

abbrev pub router : Router SalesOrder SalesEvent
router = record { initial = empty; route = route }

unfoldable pub new_sales_order : Aggregate
unfolding new_aggregate
new_sales_order = new_aggregate router

unfoldable pub create_sales_order :
    SalesOrderId
    → Uuid
    → SalesOrderNumber
    → OrderDate
    → CustomerId
    → CustomerName
    → List SalesOrderRowDto
    → Result Aggregate
unfolding new_sales_order raise_event route trim_space is_empty
create_sales_order id commit_id number date customer_id customer_name rows =
    if is_empty (trim_space number.value)
      || is_empty (trim_space customer_name.value)
      || date.value == 0
    then err err_invalid_sales_order
    else ok (
        raise_event router
          (new_sales_order_created id commit_id number date customer_id customer_name rows)
          new_sales_order)

-- The aggregate comes back beside the answer, since RaiseEvent changes it.
mark_allocated_at : AllocationStatus → Uuid → Aggregate → Result (Aggregate × Bool)
unfolding raise_event route
mark_allocated_at allocated commit_id s = ok (s, false)
mark_allocated_at rejected commit_id s = err err_allocation_conflict
mark_allocated_at _ commit_id s =
    ok (raise_event router (new_sales_order_allocated s.state.sales_order_id commit_id) s, true)

unfoldable pub mark_allocated : Uuid → Aggregate → Result (Aggregate × Bool)
unfolding mark_allocated_at
mark_allocated commit_id s = mark_allocated_at s.state.allocation commit_id s

mark_allocation_rejected_at :
    AllocationStatus → Uuid → String → Aggregate → Result (Aggregate × Bool)
unfolding raise_event route
mark_allocation_rejected_at rejected commit_id reason s = ok (s, false)
mark_allocation_rejected_at allocated commit_id reason s = err err_allocation_conflict
mark_allocation_rejected_at _ commit_id reason s = ok (
  raise_event router (new_sales_order_allocation_rejected s.state.sales_order_id commit_id reason)
      s,
  true,
)

unfoldable pub mark_allocation_rejected : Uuid → String → Aggregate → Result (Aggregate × Bool)
unfolding mark_allocation_rejected_at
mark_allocation_rejected commit_id reason s =
    mark_allocation_rejected_at s.state.allocation commit_id reason s
