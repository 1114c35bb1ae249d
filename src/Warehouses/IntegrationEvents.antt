-- ===== src/Warehouses/IntegrationEvents.antt =====
-- internal/warehouses/sharedkernel/integrationevents/order_allocation.go
use cj_beer_company.Prelude.{String}
use cj_beer_company.CustomTypes.{Uuid}
use cj_beer_company.Muflone.Message.{IntegrationEventBase, new_integration_event_base}

pub record AllocationCompleted : Type 0 where
  pub base : IntegrationEventBase
  pub sales_order_id : String

pub record AllocationRejected : Type 0 where
  pub base : IntegrationEventBase
  pub sales_order_id : String
  pub reason : String

-- The integration events of the module.
pub data AllocationOutcome : Type 0 where
  order_allocation_completed : AllocationCompleted → AllocationOutcome
  order_allocation_rejected : AllocationRejected → AllocationOutcome

abbrev pub outcome_name : AllocationOutcome → String
outcome_name (order_allocation_completed e) = "warehouses.order_allocation_completed"
outcome_name (order_allocation_rejected e) = "warehouses.order_allocation_rejected"

abbrev pub new_allocation_completed : String → Uuid → AllocationOutcome
new_allocation_completed sales_order_id commit_id =
    order_allocation_completed
      (record { base = new_integration_event_base commit_id; sales_order_id = sales_order_id })

abbrev pub new_allocation_rejected : String → Uuid → String → AllocationOutcome
new_allocation_rejected sales_order_id commit_id reason = order_allocation_rejected (record {
  base = new_integration_event_base commit_id;
  sales_order_id = sales_order_id;
  reason = reason;
})
