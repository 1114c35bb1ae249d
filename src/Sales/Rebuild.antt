-- ===== src/Sales/Rebuild.antt =====
-- internal/sales/rebuild.go, over any event store and any read model; and the part of cmd/rebuild for this
-- module. Logging is left out.
use cj_beer_company.Prelude.{String, ◌≡◌, refl, List, [], ◌∷◌}
use cj_beer_company.CustomTypes.{UuidCodec}
use cj_beer_company.Outcome.{ok, Exec, World, pure, on_store, on_bus, ◌>>=◌, ◌>>◌}
use cj_beer_company.Muflone.EventStore.{StoredEvent, EventStore}
use cj_beer_company.Sales.Events.{SalesEvent, order_created, order_allocated, order_rejected}
use cj_beer_company.Sales.ReadModel.{
  SalesOrderService, created_dto, project, project_created, on_sales_order_allocated,
  on_sales_order_allocation_rejected,
}
use cj_beer_company.Sales.ReadModel.Settled.{SalesOrderReadModel}
use cj_beer_company.Sales.ReadModel.InMemory.{in_memory_read_model}

abbrev stream_name : String
stream_name = "SalesOrder"

module _ (uuids : UuidCodec) {M : Type 0} (read_model : SalesOrderReadModel M) where
  -- the switch of RebuildReadModel, with the handlers of the projections over the interface
  unfoldable pub project_record : SalesEvent → Exec M Unit
  unfolding created_dto
  project_record (order_created e) = read_model.create_sales_order (created_dto uuids e)
  project_record (order_allocated e) =
      read_model.update_allocation_status (uuids.to_string e.sales_order_id.value) "allocated" ""
  project_record (order_rejected e) =
      read_model.update_allocation_status (uuids.to_string e.sales_order_id.value) "rejected"
        e.reason

  -- the loop over the records of a stream
  replay_records : List (StoredEvent SalesEvent) → Exec M Unit
  unfolding project_record
  replay_records [] = pure tt
  replay_records (x ∷ xs) = do project_record x.event; replay_records xs

  -- The read model is the other part of the world.
  module _ {S : Type 0} (store : EventStore S SalesEvent) where
    rebuild_streams : List String → Exec (World S M) Unit
    unfolding replay_records
    rebuild_streams [] = pure tt
    rebuild_streams (stream_id ∷ streams) = do
      stored ← on_store (store.read_stream stream_id)
      on_bus (replay_records stored)
      rebuild_streams streams

    unfoldable pub rebuild_read_model : (String → Exec S (List String)) → Exec (World S M) Unit
    unfolding rebuild_streams
    rebuild_read_model list_streams = on_store (list_streams stream_name) >>= rebuild_streams

    -- cmd/rebuild: the target is reset first
    unfoldable pub rebuild : Exec M Unit → (String → Exec S (List String)) → Exec (World S M) Unit
    unfolding rebuild_read_model
    rebuild reset list_streams = on_bus reset >> rebuild_read_model list_streams

-- Replaying an event into the in-memory service does what its subscription does.
pub project_record-in_memory :
    (uuids : UuidCodec) (e : SalesEvent) (s : SalesOrderService)
    → project_record uuids in_memory_read_model e s ≡ (ok tt, project uuids e s)
unfolding project_record project in_memory_read_model project_created on_sales_order_allocated
    on_sales_order_allocation_rejected
project_record-in_memory uuids (order_created e) s = refl
project_record-in_memory uuids (order_allocated e) s = refl
project_record-in_memory uuids (order_rejected e) s = refl
