-- ===== src/Warehouses/Commands.antt =====
-- internal/warehouses/sharedkernel/commands/commands.go
use cj_beer_company.Prelude.{String}
use cj_beer_company.CustomTypes.{Uuid, Quantity}
use cj_beer_company.Muflone.Message.{CommandBase, new_command_base}
use cj_beer_company.Warehouses.SharedKernel.{BeerId, BeerName}

pub record UpdateAvailabilityDueToProductionOrder : Type 0 where
  pub base : CommandBase
  pub beer_id : BeerId
  pub beer_name : BeerName
  pub quantity : Quantity

pub record UpdateAvailabilityDueToSalesOrder : Type 0 where
  pub base : CommandBase
  pub beer_id : BeerId
  pub beer_name : BeerName
  pub quantity : Quantity
  pub sales_order_id : String

pub record CompensateAvailabilityDueToFailedAllocation : Type 0 where
  pub base : CommandBase
  pub beer_id : BeerId
  pub quantity : Quantity
  pub sales_order_id : String

-- The commands that this module sends and handles.
pub data WarehouseCommand : Type 0 where
  due_to_production : UpdateAvailabilityDueToProductionOrder → WarehouseCommand
  due_to_sales : UpdateAvailabilityDueToSalesOrder → WarehouseCommand
  compensate : CompensateAvailabilityDueToFailedAllocation → WarehouseCommand

abbrev pub command_name : WarehouseCommand → String
command_name (due_to_production c) = "warehouses.update_availability_due_to_production_order"
command_name (due_to_sales c) = "warehouses.update_availability_due_to_sales_order"
command_name (compensate c) = "warehouses.compensate_availability_due_to_failed_allocation"

abbrev pub new_update_availability_due_to_production_order :
    BeerId → Uuid → BeerName → Quantity → UpdateAvailabilityDueToProductionOrder
new_update_availability_due_to_production_order beer_id commit_id beer_name quantity = record {
  base = new_command_base beer_id.value commit_id;
  beer_id = beer_id;
  beer_name = beer_name;
  quantity = quantity;
}

abbrev pub new_update_availability_due_to_sales_order :
    BeerId → Uuid → BeerName → Quantity → String → UpdateAvailabilityDueToSalesOrder
new_update_availability_due_to_sales_order beer_id commit_id beer_name quantity sales_order_id =
    record {
      base = new_command_base beer_id.value commit_id;
      beer_id = beer_id;
      beer_name = beer_name;
      quantity = quantity;
      sales_order_id = sales_order_id;
    }

abbrev pub new_compensate_availability_due_to_failed_allocation :
    BeerId → Uuid → Quantity → String → CompensateAvailabilityDueToFailedAllocation
new_compensate_availability_due_to_failed_allocation beer_id commit_id quantity sales_order_id =
    record {
      base = new_command_base beer_id.value commit_id;
      beer_id = beer_id;
      quantity = quantity;
      sales_order_id = sales_order_id;
    }
