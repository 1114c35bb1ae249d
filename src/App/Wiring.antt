-- ===== src/App/Wiring.antt =====
-- Register of internal/sales/module.go and internal/warehouses/module.go: which handler is subscribed to
-- which message, under which name. The handlers are those of the parts, over what the application keeps.
pub mod Handled
use cj_beer_company.Prelude.{String, List}
use cj_beer_company.Outcome.{Result, Exec}
use cj_beer_company.Muflone.Registry.{Payload}
use cj_beer_company.Muflone.Subscriptions.{
  PendingSubscription, new_service_bus, register_command_handler, register_domain_event_handler,
  subscribe_integration_event,
}
use cj_beer_company.Sales.Commands as SalesCommands
use cj_beer_company.Sales.Events as SalesEvents
use cj_beer_company.Warehouses.Commands as WarehouseCommands
use cj_beer_company.Warehouses.Events as WarehouseEvents

-- json.Unmarshal at the type of a message, and what handles it.
pub record Handling (W M : Type 0) : Type 0 where
  pub unmarshal : Payload → Result M
  pub handle : M → Exec W Unit

pub record SalesHandlers (W : Type 0) : Type 0 where
  pub create_sales_order : Handling W SalesCommands.CreateSalesOrder
  pub mark_allocated : Handling W SalesCommands.MarkSalesOrderAllocated
  pub mark_rejected : Handling W SalesCommands.MarkSalesOrderAllocationRejected
  pub project_created : Handling W SalesEvents.SalesOrderCreated
  pub project_allocated : Handling W SalesEvents.SalesOrderAllocated
  pub project_rejected : Handling W SalesEvents.SalesOrderAllocationRejected
  pub announce : Handling W SalesEvents.SalesOrderCreated
  pub on_allocation_completed : Payload → Exec W Unit
  pub on_allocation_rejected : Payload → Exec W Unit

pub record WarehouseHandlers (W : Type 0) : Type 0 where
  pub due_to_production : Handling W WarehouseCommands.UpdateAvailabilityDueToProductionOrder
  pub due_to_sales : Handling W WarehouseCommands.UpdateAvailabilityDueToSalesOrder
  pub compensate : Handling W WarehouseCommands.CompensateAvailabilityDueToFailedAllocation
  pub project_produced : Handling W WarehouseEvents.AvailabilityUpdatedDueToProductionOrder
  pub project_updated : Handling W WarehouseEvents.BeerAvailabilityUpdated
  pub project_compensated : Handling W WarehouseEvents.AvailabilityCompensated
  pub on_sales_order_created : Payload → Exec W Unit
  pub saga_on_updated : Handling W WarehouseEvents.BeerAvailabilityUpdated
  pub saga_on_quantity_not_found : Handling W WarehouseEvents.QuantityNotFound
  pub saga_on_compensated : Handling W WarehouseEvents.AvailabilityCompensated

module _ {W : Type 0} where
  command :
      {M : Type 0}
      → String
      → Handling W M
      → List (PendingSubscription W)
      → List (PendingSubscription W)
  unfolding register_command_handler
  command message_name h = register_command_handler message_name h.unmarshal h.handle

  event :
      {M : Type 0}
      → String
      → String
      → Handling W M
      → List (PendingSubscription W)
      → List (PendingSubscription W)
  unfolding register_domain_event_handler
  event name message_name h = register_domain_event_handler message_name h.unmarshal h.handle name

  unfoldable pub register_sales :
      SalesHandlers W → List (PendingSubscription W) → List (PendingSubscription W)
  unfolding command event subscribe_integration_event
  register_sales h bus =
      let b = command "sales.create_sales_order" h.create_sales_order bus in
      let b = command "sales.mark_sales_order_allocated" h.mark_allocated b in
      let b = command "sales.mark_sales_order_allocation_rejected" h.mark_rejected b in
      let b =
        event "sales.readmodel.sales_order_created" "sales.sales_order_created" h.project_created
          b in
      let b =
        event "sales.readmodel.sales_order_allocated" "sales.sales_order_allocated"
          h.project_allocated b in
      let b =
        event "sales.readmodel.sales_order_allocation_rejected"
          "sales.sales_order_allocation_rejected" h.project_rejected b in
      let b =
        event "sales.integration.sales_order_created" "sales.sales_order_created" h.announce b in
      let b =
        subscribe_integration_event "sales.on_order_allocation_completed"
          "warehouses.order_allocation_completed" h.on_allocation_completed b in
      subscribe_integration_event "sales.on_order_allocation_rejected"
        "warehouses.order_allocation_rejected" h.on_allocation_rejected b

  unfoldable pub register_warehouses :
      WarehouseHandlers W → List (PendingSubscription W) → List (PendingSubscription W)
  unfolding command event subscribe_integration_event
  register_warehouses h bus =
      let b =
        command "warehouses.update_availability_due_to_production_order" h.due_to_production bus in
      let b = command "warehouses.update_availability_due_to_sales_order" h.due_to_sales b in
      let b =
        command "warehouses.compensate_availability_due_to_failed_allocation" h.compensate b in
      let b =
        event "warehouses.readmodel.availability_updated"
          "warehouses.availability_updated_due_to_production_order" h.project_produced b in
      let b =
        event "warehouses.readmodel.beer_availability_updated"
          "warehouses.beer_availability_updated" h.project_updated b in
      let b =
        event "warehouses.readmodel.availability_compensated" "warehouses.availability_compensated"
          h.project_compensated b in
      let b =
        subscribe_integration_event "warehouses.saga.on_sales_order_created"
          "sales.sales_order_created" h.on_sales_order_created b in
      let b =
        event "warehouses.saga.on_beer_availability_updated" "warehouses.beer_availability_updated"
          h.saga_on_updated b in
      let b =
        event "warehouses.saga.on_quantity_not_found" "warehouses.quantity_not_found"
          h.saga_on_quantity_not_found b in
      event "warehouses.saga.on_availability_compensated" "warehouses.availability_compensated"
        h.saga_on_compensated b

  -- The two calls of Register in New, in memory.
  unfoldable pub registered : SalesHandlers W → WarehouseHandlers W → List (PendingSubscription W)
  unfolding register_sales register_warehouses new_service_bus
  registered sales warehouses =
      register_warehouses warehouses (register_sales sales new_service_bus)
