-- ===== src/Sales/Handlers.antt =====
-- internal/sales/domain/commandhandlers
pub mod Redelivery
use cj_beer_company.Prelude.{Bool, not, if◌then◌else◌}
use cj_beer_company.CustomTypes.{Uuid, UuidCodec, Time}
use cj_beer_company.Outcome.{
  Result, ok, err, aggregate_not_found, Exec, World, pure, raise, lift, ◌>>=◌, ◌>>◌,
}
use cj_beer_company.Muflone.Repository.{Repository, get_by_id, save}
use cj_beer_company.Sales.Events.{SalesEvent}
use cj_beer_company.Sales.Commands.{
  CreateSalesOrder, MarkSalesOrderAllocated, MarkSalesOrderAllocationRejected,
}
use cj_beer_company.Sales.SalesOrder.{
  SalesOrder, Aggregate, create_sales_order, mark_allocated, mark_allocation_rejected,
}

-- `fresh` is the id that the call of uuid.New returns, `now` the reading of the clock.
module _ {S B : Type 0} (uuids : UuidCodec) (repository : Repository SalesOrder SalesEvent S B)
    (fresh : Uuid) (now : Time) where
  save_order : Aggregate → Exec (World S B) Unit
  unfolding save
  save_order order = do save uuids repository order fresh now; pure tt

  save_changed : Aggregate × Bool → Exec (World S B) Unit
  unfolding save_order
  save_changed (order, changed) = if not changed then pure tt else save_order order

  create_unless : CreateSalesOrder → Result Aggregate → Exec (World S B) Unit
  unfolding save_order create_sales_order
  create_unless command (ok order) = pure tt
  create_unless command (err aggregate_not_found) = do
    order ← lift (
        create_sales_order command.sales_order_id command.base.commit_id command.sales_order_number
          command.order_date command.customer_id command.customer_name command.rows)
    save_order order
  create_unless command (err e) = raise e

  -- CreateSalesOrderCommandHandler.Handle
  unfoldable pub handle_create : CreateSalesOrder → Exec (World S B) Unit
  unfolding create_unless get_by_id
  handle_create command w =
      let (found, w') = get_by_id uuids repository command.base.aggregate_id w in
      create_unless command found w'

  -- MarkSalesOrderAllocatedCommandHandler.Handle
  unfoldable pub handle_mark_allocated : MarkSalesOrderAllocated → Exec (World S B) Unit
  unfolding get_by_id mark_allocated save_changed
  handle_mark_allocated command = do
    order ← get_by_id uuids repository command.base.aggregate_id
    answer ← lift (mark_allocated command.base.commit_id order)
    save_changed answer

  -- MarkSalesOrderAllocationRejectedCommandHandler.Handle
  unfoldable pub handle_mark_rejected : MarkSalesOrderAllocationRejected → Exec (World S B) Unit
  unfolding get_by_id mark_allocation_rejected save_changed
  handle_mark_rejected command = do
    order ← get_by_id uuids repository command.base.aggregate_id
    answer ← lift (mark_allocation_rejected command.base.commit_id command.reason order)
    save_changed answer
