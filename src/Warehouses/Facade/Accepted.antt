-- ===== src/Warehouses/Facade/Accepted.antt =====
-- A report of a production is refused before anything is sent, or becomes one command for its beer.
use cj_beer_company.Prelude.{String, ◌≡◌, refl, none, some, Option-cases, inl, inr}
use cj_beer_company.CustomTypes.{Uuid, UuidCodec}
use cj_beer_company.Outcome.{invalid, Result, err, pure, ◌>>◌}
use cj_beer_company.Muflone.ServiceBus.{ServiceBus, MessageType, send}
use cj_beer_company.Warehouses.Commands.{
  WarehouseCommand, UpdateAvailabilityDueToProductionOrder, due_to_production,
  new_update_availability_due_to_production_order,
}
use cj_beer_company.Warehouses.Facade.{ProductionOrderJson, beer_id_of, request_production}
use Prim.Native.String.{◌++◌ as ◌<>◌}

module _ (uuids : UuidCodec) {B : Type 0} (bus : ServiceBus B)
    (commands : MessageType WarehouseCommand) where
  -- The two ways in which a report ends.
  pub data Answer (body : ProductionOrderJson) (b : B) (r : Result String × B) : Type 0 where
    -- the id is none, and the bus is as it was
    refused :
        (message : String)
        → uuids.parse body.beer_id ≡ none
        → r ≡ (err (invalid message), b)
        → Answer body b r
    -- one command was handed to the bus, addressed to the beer whose id is returned
    sent :
        (command : UpdateAvailabilityDueToProductionOrder)
        → uuids.parse body.beer_id ≡ some command.beer_id.value
        → command.base.aggregate_id ≡ command.beer_id.value
        → command.beer_name.value ≡ body.beer_name
        → command.quantity ≡ body.quantity
        → r
          ≡ (send bus commands (due_to_production command)
                >> pure (uuids.to_string command.beer_id.value))
              b
        → Answer body b r

  pub request_production-Answer :
      (commit_id : Uuid) (body : ProductionOrderJson) (b : B)
      → Answer body b (request_production uuids bus commands commit_id body b)
  unfolding request_production beer_id_of
  request_production-Answer commit_id body b = elim (Option-cases (uuids.parse body.beer_id)) [
    | inl bad ↦ refused ("invalid beer id: " <> body.beer_id) bad (rw bad refl)
    | inr (id, good) ↦
        let command =
          new_update_availability_due_to_production_order (record { value = id }) commit_id
            (record { value = body.beer_name }) body.quantity in
        sent command good refl refl refl (rw good refl)
  ]
