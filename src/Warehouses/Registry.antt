-- ===== src/Warehouses/Registry.antt =====
-- internal/warehouses/module.go, NewEventRegistry: every event that the module stores can be read back.
use cj_beer_company.Prelude.{ℕ, suc, String, ◌≡◌, ap, some}
use cj_beer_company.Outcome.{Result, ok, err}
use cj_beer_company.Dict.{lookup, insert}
use cj_beer_company.Muflone.Registry.{
  Payload, EventRegistry, new_event_registry, register_event, rehydrate, deserialize,
}
use cj_beer_company.Warehouses.Events.{
  AvailabilityUpdatedDueToProductionOrder, BeerAvailabilityUpdated, QuantityNotFound,
  AvailabilityCompensated, OrderAllocationStarted, AllocationStepSucceeded, AllocationStepFailed,
  AllocationStepCompensated, OrderAllocationCompleted, OrderAllocationRejected, WarehouseEvent,
  produced, beer_updated, quantity_not_found, compensated, allocation_started, step_succeeded,
  step_failed, step_compensated, allocation_completed, allocation_rejected, message_name,
}

-- json.Unmarshal at each type of event.
pub record Decoders : Type 0 where
  pub of_produced : Payload → Result AvailabilityUpdatedDueToProductionOrder
  pub of_beer_updated : Payload → Result BeerAvailabilityUpdated
  pub of_quantity_not_found : Payload → Result QuantityNotFound
  pub of_compensated : Payload → Result AvailabilityCompensated
  pub of_allocation_started : Payload → Result OrderAllocationStarted
  pub of_step_succeeded : Payload → Result AllocationStepSucceeded
  pub of_step_failed : Payload → Result AllocationStepFailed
  pub of_step_compensated : Payload → Result AllocationStepCompensated
  pub of_allocation_completed : Payload → Result OrderAllocationCompleted
  pub of_allocation_rejected : Payload → Result OrderAllocationRejected

abbrev as_event : {M : Type 0} → (M → WarehouseEvent) → Result M → Result WarehouseEvent
as_event f (ok m) = ok (f m)
as_event f (err e) = err e

module _ (decoders : Decoders) where
  abbrev register :
      {M : Type 0}
      → String
      → (Payload → Result M)
      → (M → WarehouseEvent)
      → EventRegistry WarehouseEvent
      → EventRegistry WarehouseEvent
  unfolding register_event
  register name unmarshal f = register_event name (λ p. as_event f (unmarshal p))

  unfoldable pub warehouses_event_registry : EventRegistry WarehouseEvent
  unfolding register new_event_registry
  warehouses_event_registry =
      let r = new_event_registry in
      let r =
        register "warehouses.availability_updated_due_to_production_order" decoders.of_produced
          produced r in
      let r =
        register "warehouses.beer_availability_updated" decoders.of_beer_updated beer_updated r in
      let r =
        register "warehouses.quantity_not_found" decoders.of_quantity_not_found quantity_not_found
          r in
      let r =
        register "warehouses.availability_compensated" decoders.of_compensated compensated r in
      let r =
        register "warehouses.order_allocation_started" decoders.of_allocation_started
          allocation_started r in
      let r =
        register "warehouses.allocation_step_succeeded" decoders.of_step_succeeded step_succeeded
          r in
      let r = register "warehouses.allocation_step_failed" decoders.of_step_failed step_failed r in
      let r =
        register "warehouses.allocation_step_compensated" decoders.of_step_compensated
          step_compensated r in
      let r =
        register "warehouses.order_allocation_completed" decoders.of_allocation_completed
          allocation_completed r in
      register "warehouses.order_allocation_rejected" decoders.of_allocation_rejected
        allocation_rejected r

  -- The payload is that of the event, for json.Unmarshal at its type.
  abbrev pub IsPayload : Payload → WarehouseEvent → Type 0
  IsPayload p (produced e) = decoders.of_produced p ≡ ok e
  IsPayload p (beer_updated e) = decoders.of_beer_updated p ≡ ok e
  IsPayload p (quantity_not_found e) = decoders.of_quantity_not_found p ≡ ok e
  IsPayload p (compensated e) = decoders.of_compensated p ≡ ok e
  IsPayload p (allocation_started e) = decoders.of_allocation_started p ≡ ok e
  IsPayload p (step_succeeded e) = decoders.of_step_succeeded p ≡ ok e
  IsPayload p (step_failed e) = decoders.of_step_failed p ≡ ok e
  IsPayload p (step_compensated e) = decoders.of_step_compensated p ≡ ok e
  IsPayload p (allocation_completed e) = decoders.of_allocation_completed p ≡ ok e
  IsPayload p (allocation_rejected e) = decoders.of_allocation_rejected p ≡ ok e

  -- Whatever event the module stores, its name and its payload are read back as that event, in the first
  -- round already, since no upcaster is registered.
  pub deserialize-stored :
      (rounds : ℕ) (e : WarehouseEvent) (p : Payload)
      → IsPayload p e
      → deserialize (suc rounds) warehouses_event_registry (message_name e) p ≡ some (ok e)
  unfolding deserialize rehydrate warehouses_event_registry register register_event
      new_event_registry lookup insert
  deserialize-stored rounds (produced e) p h = ap (λ r. some (as_event produced r)) h
  deserialize-stored rounds (beer_updated e) p h = ap (λ r. some (as_event beer_updated r)) h
  deserialize-stored rounds (quantity_not_found e) p h =
      ap (λ r. some (as_event quantity_not_found r)) h
  deserialize-stored rounds (compensated e) p h = ap (λ r. some (as_event compensated r)) h
  deserialize-stored rounds (allocation_started e) p h =
      ap (λ r. some (as_event allocation_started r)) h
  deserialize-stored rounds (step_succeeded e) p h = ap (λ r. some (as_event step_succeeded r)) h
  deserialize-stored rounds (step_failed e) p h = ap (λ r. some (as_event step_failed r)) h
  deserialize-stored rounds (step_compensated e) p h =
      ap (λ r. some (as_event step_compensated r)) h
  deserialize-stored rounds (allocation_completed e) p h =
      ap (λ r. some (as_event allocation_completed r)) h
  deserialize-stored rounds (allocation_rejected e) p h =
      ap (λ r. some (as_event allocation_rejected r)) h
