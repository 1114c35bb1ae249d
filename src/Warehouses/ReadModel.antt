-- ===== src/Warehouses/ReadModel.antt =====
-- internal/warehouses/readmodel: the in-memory service without its sorted listing, the projector
-- that writes it; and internal/warehouses/rebuild.go. Logging and the lock are left out.
pub mod Mirror
pub mod Listing
use cj_beer_company.Prelude.{String, Option, none, some, List, [], ◌∷◌}
use cj_beer_company.CustomTypes.{UuidCodec, Quantity}
use cj_beer_company.Outcome.{
  Result, ok, err, not_found, failed, Exec, World, pure, raise, on_store, on_bus, ◌>>=◌, ◌>>◌,
}
use cj_beer_company.Dict.{Dict, lookup, insert}
use cj_beer_company.Muflone.EventStore.{StoredEvent, EventStore}
use cj_beer_company.Warehouses.Availability.{stream_name}
use cj_beer_company.Warehouses.Events.{
  WarehouseEvent, AvailabilityUpdatedDueToProductionOrder, BeerAvailabilityUpdated,
  AvailabilityCompensated, produced, beer_updated, compensated,
}

pub record AvailabilityDto : Type 0 where
  pub beer_id : String
  pub beer_name : String
  pub quantity : Quantity

-- AvailabilityService: the map of the projections.
abbrev pub AvailabilityService : Type 0
AvailabilityService = Dict AvailabilityDto

abbrev pub new_availability_service : AvailabilityService
new_availability_service = []

unfoldable pub upsert_availability : AvailabilityDto → AvailabilityService → AvailabilityService
unfolding insert
upsert_availability availability s = insert availability.beer_id availability s

dto_or_not_found : Option AvailabilityDto → Result AvailabilityDto
dto_or_not_found none = err not_found
dto_or_not_found (some availability) = ok availability

unfoldable pub get_availability : String → AvailabilityService → Result AvailabilityDto
unfolding dto_or_not_found lookup
get_availability beer_id s = dto_or_not_found (lookup beer_id s)

module _ (uuids : UuidCodec) where
  unfoldable pub on_availability_updated_due_to_production_order :
      AvailabilityUpdatedDueToProductionOrder → AvailabilityService → AvailabilityService
  unfolding upsert_availability
  on_availability_updated_due_to_production_order event = upsert_availability (record {
    beer_id = uuids.to_string event.beer_id.value;
    beer_name = event.beer_name.value;
    quantity = event.quantity;
  })

  unfoldable pub project_beer_availability_updated :
      BeerAvailabilityUpdated → AvailabilityService → AvailabilityService
  unfolding upsert_availability
  project_beer_availability_updated event = upsert_availability (record {
    beer_id = uuids.to_string event.beer_id.value;
    beer_name = event.beer_name.value;
    quantity = event.quantity;
  })

  unfoldable pub project_availability_compensated :
      AvailabilityCompensated → AvailabilityService → AvailabilityService
  unfolding upsert_availability
  project_availability_compensated event = upsert_availability (record {
    beer_id = uuids.to_string event.beer_id.value;
    beer_name = event.beer_name.value;
    quantity = event.quantity;
  })

  -- the switch of RebuildReadModel, and what the subscriptions do with each event
  unfoldable pub project_availability : WarehouseEvent → AvailabilityService → AvailabilityService
  unfolding on_availability_updated_due_to_production_order project_beer_availability_updated
      project_availability_compensated
  project_availability (produced e) s = on_availability_updated_due_to_production_order e s
  project_availability (beer_updated e) s = project_beer_availability_updated e s
  project_availability (compensated e) s = project_availability_compensated e s
  project_availability _ s = s

  unfoldable pub replay_records :
      List (StoredEvent WarehouseEvent) → AvailabilityService → AvailabilityService
  unfolding project_availability
  replay_records [] s = s
  replay_records (x ∷ xs) s = replay_records xs (project_availability x.event s)

  -- The service is the other part of the world. The in-memory service never fails.
  module _ {S : Type 0} (store : EventStore S WarehouseEvent) where
    rebuild_streams : List String → Exec (World S AvailabilityService) Unit
    unfolding replay_records
    rebuild_streams [] = pure tt
    rebuild_streams (stream_id ∷ streams) = do
      stored ← on_store (store.read_stream stream_id)
      on_bus (λ s. (ok tt, replay_records stored s))
      rebuild_streams streams

    -- RebuildReadModel on a store that is a StreamLister
    unfoldable pub rebuild_availabilities :
        (String → Exec S (List String)) → Exec (World S AvailabilityService) Unit
    unfolding rebuild_streams
    rebuild_availabilities list_streams = on_store (list_streams stream_name) >>= rebuild_streams
