-- ===== src/Sales/Events.antt =====
-- internal/sales/sharedkernel/events: the domain events of the module.
use cj_beer_company.Prelude.{String, List}
use cj_beer_company.CustomTypes.{Uuid}
use cj_beer_company.Muflone.Message.{DomainEventBase, new_domain_event_base}
use cj_beer_company.Sales.SharedKernel.{
  SalesOrderId, SalesOrderNumber, OrderDate, CustomerId, CustomerName, SalesOrderRowDto,
}

pub record SalesOrderCreated : Type 0 where
  pub base : DomainEventBase
  pub sales_order_id : SalesOrderId
  pub sales_order_number : SalesOrderNumber
  pub order_date : OrderDate
  pub customer_id : CustomerId
  pub customer_name : CustomerName
  pub rows : List SalesOrderRowDto

pub record SalesOrderAllocated : Type 0 where
  pub base : DomainEventBase
  pub sales_order_id : SalesOrderId

pub record SalesOrderAllocationRejected : Type 0 where
  pub base : DomainEventBase
  pub sales_order_id : SalesOrderId
  pub reason : String

-- The dynamic types that a `muflone.DomainEvent` of this module has.
pub data SalesEvent : Type 0 where
  order_created : SalesOrderCreated → SalesEvent
  order_allocated : SalesOrderAllocated → SalesEvent
  order_rejected : SalesOrderAllocationRejected → SalesEvent

abbrev pub sales_event_name : SalesEvent → String
sales_event_name (order_created e) = "sales.sales_order_created"
sales_event_name (order_allocated e) = "sales.sales_order_allocated"
sales_event_name (order_rejected e) = "sales.sales_order_allocation_rejected"

abbrev pub new_sales_order_created :
    SalesOrderId
    → Uuid
    → SalesOrderNumber
    → OrderDate
    → CustomerId
    → CustomerName
    → List SalesOrderRowDto
    → SalesEvent
new_sales_order_created id commit_id number date customer_id customer_name rows =
    order_created (record {
      base = new_domain_event_base id.value commit_id;
      sales_order_id = id;
      sales_order_number = number;
      order_date = date;
      customer_id = customer_id;
      customer_name = customer_name;
      rows = rows;
    })

abbrev pub new_sales_order_allocated : SalesOrderId → Uuid → SalesEvent
new_sales_order_allocated id commit_id =
    order_allocated
      (record { base = new_domain_event_base id.value commit_id; sales_order_id = id })

abbrev pub new_sales_order_allocation_rejected : SalesOrderId → Uuid → String → SalesEvent
new_sales_order_allocation_rejected id commit_id reason = order_rejected (record {
  base = new_domain_event_base id.value commit_id;
  sales_order_id = id;
  reason = reason;
})
