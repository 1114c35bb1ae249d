-- ===== src/Warehouses/Facade.antt =====
-- internal/warehouses/facade.go: the payload of a finished production becomes a command. Reading goes
-- through to the read model.
pub mod Accepted
use cj_beer_company.Prelude.{String, Option, none, some, List}
use cj_beer_company.CustomTypes.{Uuid, UuidCodec, Quantity, Page}
use cj_beer_company.Outcome.{Result, ok, err, invalid, Exec, pure, lift, ◌>>=◌, ◌>>◌}
use cj_beer_company.Muflone.ServiceBus.{ServiceBus, MessageType, send}
use cj_beer_company.Warehouses.Commands.{
  WarehouseCommand, due_to_production, new_update_availability_due_to_production_order,
}
use cj_beer_company.Warehouses.ReadModel.{AvailabilityDto}
use Prim.Native.String.{◌++◌ as ◌<>◌}

pub record ProductionOrderJson : Type 0 where
  pub beer_id : String
  pub beer_name : String
  pub quantity : Quantity

-- The read side; Q is the state of the read model.
pub record AvailabilityQueries (Q : Type 0) : Type 0 where
  pub get_availability : String → Exec Q AvailabilityDto
  pub get_availabilities : Page → Exec Q (List AvailabilityDto)

beer_id_of : String → Option Uuid → Result Uuid
beer_id_of text none = err (invalid ("invalid beer id: " <> text))
beer_id_of text (some id) = ok id

module _ (uuids : UuidCodec) {B : Type 0} (bus : ServiceBus B)
    (commands : MessageType WarehouseCommand) where
  -- Facade.UpdateAvailabilityDueToProductionOrder; `commit_id` is what uuid.New returns.
  unfoldable pub request_production : Uuid → ProductionOrderJson → Exec B String
  unfolding beer_id_of send
  request_production commit_id body = do
    beer_id ← lift (beer_id_of body.beer_id (uuids.parse body.beer_id))
    send bus commands (
        due_to_production (
          new_update_availability_due_to_production_order (record { value = beer_id }) commit_id
            (record { value = body.beer_name }) body.quantity))
    pure (uuids.to_string beer_id)
