-- ===== src/Warehouses/SagaHandler.antt =====
-- internal/warehouses/sagas/order_allocation_saga_handler.go: what the saga does to the event store
-- and the bus. Logging is left out.
pub mod Steps
pub mod Recovery
use cj_beer_company.Prelude.{
  String, Bool, true, false, Option, none, some, List, [], ◌∷◌, if◌then◌else◌,
}
use cj_beer_company.Prelude.Int.{ℤ, pos}
use cj_beer_company.CustomTypes.{Uuid, UuidCodec, Time, Quantity, new_quantity}
use cj_beer_company.Outcome.{
  Result, ok, err, aggregate_not_found, failed, panicked, Exec, World, pure, raise, lift, on_store,
  on_bus, ◌>>=◌, ◌>>◌,
}
use cj_beer_company.Muflone.EventStore.{StoredEvent, EventStore}
use cj_beer_company.Muflone.Registry.{Payload}
use cj_beer_company.Muflone.Repository.{Repository, stream_id, get_by_id, save}
use cj_beer_company.Muflone.ServiceBus.{ServiceBus, MessageType, send, publish_integration_event}
use cj_beer_company.Warehouses.SharedKernel.{BeerId, BeerName}
use cj_beer_company.Warehouses.Events.{
  WarehouseEvent, SagaRowData, BeerAvailabilityUpdated, QuantityNotFound, AvailabilityCompensated,
}
use cj_beer_company.Warehouses.Commands.{
  WarehouseCommand, due_to_sales, compensate, new_update_availability_due_to_sales_order,
  new_compensate_availability_due_to_failed_allocation,
}
use cj_beer_company.Warehouses.IntegrationEvents.{
  AllocationOutcome, new_allocation_completed, new_allocation_rejected,
}
use cj_beer_company.Warehouses.AllocationSaga.{
  SagaStatus, running, compensating, completed, rejected, OrderAllocationSaga, Aggregate,
  saga_stream_name, is_running, is_compensating, next_pending_row, rows_to_compensate,
  start_order_allocation, must_parse, record_allocation_succeeded, record_quantity_not_found,
  record_compensated,
}
use Prim.Native.String.{◌++◌ as ◌<>◌}

abbrev pub is_completed : SagaStatus → Bool
is_completed completed = true
is_completed _ = false

abbrev pub is_rejected : SagaStatus → Bool
is_rejected rejected = true
is_rejected _ = false

-- salesOrderCreatedMessage: its rows have the fields of SagaRowData.
pub record SalesOrderCreatedMessage : Type 0 where
  pub commit_id : Uuid
  pub sales_order_id : String
  pub rows : List SagaRowData

-- The fields of the saga handler. `list_streams` is there where the store is a StreamLister;
-- `unmarshal` is json.Unmarshal, and `format_int` the verb %d of fmt.
pub record SagaHandler (S B : Type 0) : Type 0 where
  pub repository : Repository OrderAllocationSaga WarehouseEvent S B
  pub store : EventStore S WarehouseEvent
  pub list_streams : Option (String → Exec S (List String))
  pub bus : ServiceBus B
  pub commands : MessageType WarehouseCommand
  pub outcomes : MessageType AllocationOutcome
  pub unmarshal : Payload → Result SalesOrderCreatedMessage
  pub format_int : ℤ → String

module _ {S B : Type 0} (uuids : UuidCodec) (h : SagaHandler S B) where
  unfoldable pub quantity_text : Quantity → String
  quantity_text q = h.format_int q.value <> (" " <> q.unit_of_measure)

  unfoldable pub publish_outcome : Aggregate → Uuid → Exec (World S B) Unit
  unfolding publish_integration_event
  publish_outcome saga commit_id =
      let outcome =
        if is_completed saga.state.status
        then new_allocation_completed saga.state.sales_order_id commit_id
        else new_allocation_rejected saga.state.sales_order_id commit_id saga.state.reason in
      on_bus (publish_integration_event h.bus h.outcomes outcome)

  -- uuid.Parse on the beer id of a row, and the error that names it.
  beer_of : Option Uuid → Result Uuid
  beer_of none = err (failed "invalid beer id")
  beer_of (some id) = ok id

  -- The zero row, where there is none, has no beer id.
  row_or_zero : Option SagaRowData → SagaRowData
  row_or_zero none = record { beer_id = ""; beer_name = ""; quantity = pos 0; unit_of_measure = "" }
  row_or_zero (some row) = row

  unfoldable pub send_next_allocation : Aggregate → Uuid → Exec (World S B) Unit
  unfolding row_or_zero beer_of next_pending_row send
  send_next_allocation saga commit_id =
      let row = row_or_zero (next_pending_row saga.state) in
      do
        beer_id ← lift (beer_of (uuids.parse row.beer_id))
        on_bus (
            send h.bus h.commands (
              due_to_sales (
                new_update_availability_due_to_sales_order (record { value = beer_id }) commit_id
                  (record { value = row.beer_name }) (new_quantity row.quantity row.unit_of_measure)
                  saga.state.sales_order_id)))

  -- the loop of sendCompensations
  send_compensation_of : List SagaRowData → String → Uuid → Exec (World S B) Unit
  unfolding beer_of send
  send_compensation_of [] order commit_id = pure tt
  send_compensation_of (row ∷ rows) order commit_id = do
    beer_id ← lift (beer_of (uuids.parse row.beer_id))
    on_bus (
        send h.bus h.commands (
          compensate (
            new_compensate_availability_due_to_failed_allocation (record { value = beer_id })
              commit_id (new_quantity row.quantity row.unit_of_measure) order)))
    send_compensation_of rows order commit_id

  unfoldable pub send_compensations : Aggregate → Uuid → Exec (World S B) Unit
  unfolding send_compensation_of rows_to_compensate
  send_compensations saga commit_id =
      send_compensation_of (rows_to_compensate saga.state) saga.state.sales_order_id commit_id
