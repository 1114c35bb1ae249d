-- ===== src/Sales/Commands.antt =====
-- internal/sales/sharedkernel/commands
use cj_beer_company.Prelude.{String, List}
use cj_beer_company.CustomTypes.{Uuid}
use cj_beer_company.Muflone.Message.{CommandBase, new_command_base}
use cj_beer_company.Sales.SharedKernel.{
  SalesOrderId, SalesOrderNumber, OrderDate, CustomerId, CustomerName, SalesOrderRowDto,
}

pub record CreateSalesOrder : Type 0 where
  pub base : CommandBase
  pub sales_order_id : SalesOrderId
  pub sales_order_number : SalesOrderNumber
  pub order_date : OrderDate
  pub customer_id : CustomerId
  pub customer_name : CustomerName
  pub rows : List SalesOrderRowDto

pub record MarkSalesOrderAllocated : Type 0 where
  pub base : CommandBase
  pub sales_order_id : SalesOrderId

pub record MarkSalesOrderAllocationRejected : Type 0 where
  pub base : CommandBase
  pub sales_order_id : SalesOrderId
  pub reason : String

-- The commands of the module.
pub data SalesCommand : Type 0 where
  create_order : CreateSalesOrder → SalesCommand
  mark_allocated_order : MarkSalesOrderAllocated → SalesCommand
  mark_rejected_order : MarkSalesOrderAllocationRejected → SalesCommand

abbrev pub sales_command_name : SalesCommand → String
sales_command_name (create_order c) = "sales.create_sales_order"
sales_command_name (mark_allocated_order c) = "sales.mark_sales_order_allocated"
sales_command_name (mark_rejected_order c) = "sales.mark_sales_order_allocation_rejected"

abbrev pub new_create_sales_order :
    SalesOrderId
    → Uuid
    → SalesOrderNumber
    → OrderDate
    → CustomerId
    → CustomerName
    → List SalesOrderRowDto
    → CreateSalesOrder
new_create_sales_order id commit_id number date customer_id customer_name rows = record {
  base = new_command_base id.value commit_id;
  sales_order_id = id;
  sales_order_number = number;
  order_date = date;
  customer_id = customer_id;
  customer_name = customer_name;
  rows = rows;
}

abbrev pub new_mark_sales_order_allocated : SalesOrderId → Uuid → MarkSalesOrderAllocated
new_mark_sales_order_allocated id commit_id = record {
  base = new_command_base id.value commit_id;
  sales_order_id = id;
}

abbrev pub new_mark_sales_order_allocation_rejected :
    SalesOrderId → Uuid → String → MarkSalesOrderAllocationRejected
new_mark_sales_order_allocation_rejected id commit_id reason = record {
  base = new_command_base id.value commit_id;
  sales_order_id = id;
  reason = reason;
}
