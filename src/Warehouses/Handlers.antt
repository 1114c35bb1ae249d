-- ===== src/Warehouses/Handlers.antt =====
-- internal/warehouses/domain/commandhandlers/handlers.go
pub mod Redelivery
use cj_beer_company.CustomTypes.{Uuid, UuidCodec, Time}
use cj_beer_company.Outcome.{
  Result, ok, err, aggregate_not_found, Exec, World, pure, raise, lift, ◌>>=◌, ◌>>◌,
}
use cj_beer_company.Muflone.Repository.{Repository, get_by_id, save}
use cj_beer_company.Warehouses.Events.{WarehouseEvent}
use cj_beer_company.Warehouses.Commands.{
  UpdateAvailabilityDueToProductionOrder, UpdateAvailabilityDueToSalesOrder,
  CompensateAvailabilityDueToFailedAllocation,
}
use cj_beer_company.Warehouses.Availability.{
  Availability, Aggregate, create_availability, update_due_to_production_order,
  update_due_to_sales_order, refuse_unknown_beer, compensate_due_to_failed_allocation,
}

-- `fresh` is the id that the call of uuid.New returns, `now` the reading of the clock.
module _ {S B : Type 0} (uuids : UuidCodec)
    (repository : Repository Availability WarehouseEvent S B) (fresh : Uuid) (now : Time) where
  save_it : Aggregate → Exec (World S B) Unit
  unfolding save
  save_it a = do save uuids repository a fresh now; pure tt

  produced_with : UpdateAvailabilityDueToProductionOrder → Result Aggregate → Exec (World S B) Unit
  unfolding save_it create_availability update_due_to_production_order
  produced_with command (ok a) = do
    b ←
        lift (
          update_due_to_production_order command.base.commit_id command.beer_name command.quantity
            a)
    save_it b
  produced_with command (err aggregate_not_found) = do
    b ← lift (
        create_availability command.beer_id command.base.commit_id command.beer_name
          command.quantity)
    save_it b
  produced_with command (err e) = raise e

  -- UpdateAvailabilityDueToProductionOrderCommandHandler.Handle
  unfoldable pub handle_production_order :
      UpdateAvailabilityDueToProductionOrder → Exec (World S B) Unit
  unfolding produced_with get_by_id
  handle_production_order command w =
      let (found, w') = get_by_id uuids repository command.base.aggregate_id w in
      produced_with command found w'

  sold_with : UpdateAvailabilityDueToSalesOrder → Result Aggregate → Exec (World S B) Unit
  unfolding save_it update_due_to_sales_order refuse_unknown_beer
  sold_with command (ok a) = do
    b ←
        lift (
          update_due_to_sales_order command.base.commit_id command.quantity command.sales_order_id
            a)
    save_it b
  sold_with command (err aggregate_not_found) = save_it (
      refuse_unknown_beer command.beer_id command.base.commit_id command.quantity
        command.sales_order_id)
  sold_with command (err e) = raise e

  -- UpdateAvailabilityDueToSalesOrderCommandHandler.Handle
  unfoldable pub handle_sales_order : UpdateAvailabilityDueToSalesOrder → Exec (World S B) Unit
  unfolding sold_with get_by_id
  handle_sales_order command w =
      let (found, w') = get_by_id uuids repository command.base.aggregate_id w in
      sold_with command found w'

  -- CompensateAvailabilityDueToFailedAllocationCommandHandler.Handle
  unfoldable pub handle_compensation :
      CompensateAvailabilityDueToFailedAllocation → Exec (World S B) Unit
  unfolding get_by_id compensate_due_to_failed_allocation save_it
  handle_compensation command = do
    a ← get_by_id uuids repository command.base.aggregate_id
    b ← lift (
        compensate_due_to_failed_allocation command.base.commit_id command.quantity
          command.sales_order_id a)
    save_it b
