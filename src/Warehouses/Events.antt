-- ===== src/Warehouses/Events.antt =====
-- internal/warehouses/sharedkernel/events: the domain events of the module.
use cj_beer_company.Prelude.{String, List}
use cj_beer_company.Prelude.Int.{ℤ}
use cj_beer_company.CustomTypes.{Uuid, UuidCodec, Quantity}
use cj_beer_company.Muflone.Message.{DomainEventBase, new_domain_event_base}
use cj_beer_company.Warehouses.SharedKernel.{BeerId, BeerName}

-- `quantity` is the new cumulative availability.
pub record AvailabilityUpdatedDueToProductionOrder : Type 0 where
  pub base : DomainEventBase
  pub beer_id : BeerId
  pub beer_name : BeerName
  pub quantity : Quantity

pub record BeerAvailabilityUpdated : Type 0 where
  pub base : DomainEventBase
  pub beer_id : BeerId
  pub beer_name : BeerName
  pub quantity : Quantity
  pub sales_order_id : String

pub record QuantityNotFound : Type 0 where
  pub base : DomainEventBase
  pub beer_id : BeerId
  pub sales_order_id : String
  pub requested : Quantity
  pub available : Quantity

pub record AvailabilityCompensated : Type 0 where
  pub base : DomainEventBase
  pub beer_id : BeerId
  pub beer_name : BeerName
  pub quantity : Quantity
  pub sales_order_id : String

pub record SagaRowData : Type 0 where
  pub beer_id : String
  pub beer_name : String
  pub quantity : ℤ
  pub unit_of_measure : String

pub record OrderAllocationStarted : Type 0 where
  pub base : DomainEventBase
  pub sales_order_id : String
  pub rows : List SagaRowData

pub record AllocationStepSucceeded : Type 0 where
  pub base : DomainEventBase
  pub sales_order_id : String
  pub beer_id : String

pub record AllocationStepFailed : Type 0 where
  pub base : DomainEventBase
  pub sales_order_id : String
  pub beer_id : String
  pub reason : String

pub record AllocationStepCompensated : Type 0 where
  pub base : DomainEventBase
  pub sales_order_id : String
  pub beer_id : String

pub record OrderAllocationCompleted : Type 0 where
  pub base : DomainEventBase
  pub sales_order_id : String

pub record OrderAllocationRejected : Type 0 where
  pub base : DomainEventBase
  pub sales_order_id : String
  pub reason : String

-- The dynamic types that a `muflone.DomainEvent` of this module has.
pub data WarehouseEvent : Type 0 where
  produced : AvailabilityUpdatedDueToProductionOrder → WarehouseEvent
  beer_updated : BeerAvailabilityUpdated → WarehouseEvent
  quantity_not_found : QuantityNotFound → WarehouseEvent
  compensated : AvailabilityCompensated → WarehouseEvent
  allocation_started : OrderAllocationStarted → WarehouseEvent
  step_succeeded : AllocationStepSucceeded → WarehouseEvent
  step_failed : AllocationStepFailed → WarehouseEvent
  step_compensated : AllocationStepCompensated → WarehouseEvent
  allocation_completed : OrderAllocationCompleted → WarehouseEvent
  allocation_rejected : OrderAllocationRejected → WarehouseEvent

abbrev pub message_name : WarehouseEvent → String
message_name (produced e) = "warehouses.availability_updated_due_to_production_order"
message_name (beer_updated e) = "warehouses.beer_availability_updated"
message_name (quantity_not_found e) = "warehouses.quantity_not_found"
message_name (compensated e) = "warehouses.availability_compensated"
message_name (allocation_started e) = "warehouses.order_allocation_started"
message_name (step_succeeded e) = "warehouses.allocation_step_succeeded"
message_name (step_failed e) = "warehouses.allocation_step_failed"
message_name (step_compensated e) = "warehouses.allocation_step_compensated"
message_name (allocation_completed e) = "warehouses.order_allocation_completed"
message_name (allocation_rejected e) = "warehouses.order_allocation_rejected"

abbrev pub new_availability_updated_due_to_production_order :
    BeerId → Uuid → BeerName → Quantity → WarehouseEvent
new_availability_updated_due_to_production_order beer_id commit_id beer_name quantity =
    produced (record {
      base = new_domain_event_base beer_id.value commit_id;
      beer_id = beer_id;
      beer_name = beer_name;
      quantity = quantity;
    })

abbrev pub new_beer_availability_updated :
    BeerId → Uuid → BeerName → Quantity → String → WarehouseEvent
new_beer_availability_updated beer_id commit_id beer_name quantity sales_order_id =
    beer_updated (record {
      base = new_domain_event_base beer_id.value commit_id;
      beer_id = beer_id;
      beer_name = beer_name;
      quantity = quantity;
      sales_order_id = sales_order_id;
    })

abbrev pub new_quantity_not_found : BeerId → Uuid → String → Quantity → Quantity → WarehouseEvent
new_quantity_not_found beer_id commit_id sales_order_id requested available =
    quantity_not_found (record {
      base = new_domain_event_base beer_id.value commit_id;
      beer_id = beer_id;
      sales_order_id = sales_order_id;
      requested = requested;
      available = available;
    })

abbrev pub new_availability_compensated :
    BeerId → Uuid → BeerName → Quantity → String → WarehouseEvent
new_availability_compensated beer_id commit_id beer_name quantity sales_order_id =
    compensated (record {
      base = new_domain_event_base beer_id.value commit_id;
      beer_id = beer_id;
      beer_name = beer_name;
      quantity = quantity;
      sales_order_id = sales_order_id;
    })

module _ (uuids : UuidCodec) (sales_order_id commit_id : Uuid) where
  abbrev pub new_order_allocation_started : List SagaRowData → WarehouseEvent
  new_order_allocation_started rows = allocation_started (record {
    base = new_domain_event_base sales_order_id commit_id;
    sales_order_id = uuids.to_string sales_order_id;
    rows = rows;
  })

  abbrev pub new_allocation_step_succeeded : String → WarehouseEvent
  new_allocation_step_succeeded beer_id = step_succeeded (record {
    base = new_domain_event_base sales_order_id commit_id;
    sales_order_id = uuids.to_string sales_order_id;
    beer_id = beer_id;
  })

  abbrev pub new_allocation_step_failed : String → String → WarehouseEvent
  new_allocation_step_failed beer_id reason = step_failed (record {
    base = new_domain_event_base sales_order_id commit_id;
    sales_order_id = uuids.to_string sales_order_id;
    beer_id = beer_id;
    reason = reason;
  })

  abbrev pub new_allocation_step_compensated : String → WarehouseEvent
  new_allocation_step_compensated beer_id = step_compensated (record {
    base = new_domain_event_base sales_order_id commit_id;
    sales_order_id = uuids.to_string sales_order_id;
    beer_id = beer_id;
  })

  abbrev pub new_order_allocation_completed : WarehouseEvent
  new_order_allocation_completed = allocation_completed (record {
    base = new_domain_event_base sales_order_id commit_id;
    sales_order_id = uuids.to_string sales_order_id;
  })

  abbrev pub new_order_allocation_rejected : String → WarehouseEvent
  new_order_allocation_rejected reason = allocation_rejected (record {
    base = new_domain_event_base sales_order_id commit_id;
    sales_order_id = uuids.to_string sales_order_id;
    reason = reason;
  })
