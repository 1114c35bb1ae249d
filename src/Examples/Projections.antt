-- ===== src/Examples/Projections.antt =====
-- The events of two beers, projected.
use cj_beer_company.Prelude.{refl, List, [], ◌∷◌}
use cj_beer_company.Prelude.Int.{pos}
use cj_beer_company.Warehouses.Events.{
  WarehouseEvent, new_availability_updated_due_to_production_order, new_beer_availability_updated,
  new_quantity_not_found,
}
use cj_beer_company.Warehouses.Availability.{empty}
use cj_beer_company.Warehouses.ReadModel.{new_availability_service}
use cj_beer_company.Warehouses.ReadModel.Mirror.{
  Mirrors, own, route_all, project_all, project_all-Mirrors,
}
use cj_beer_company.Examples.Data.{codec, three_litres}

abbrev stock_events : List WarehouseEvent
stock_events =
    new_availability_updated_due_to_production_order (record { value = 2 }) 1
      (record { value = "ipa" }) three_litres
    ∷ new_availability_updated_due_to_production_order (record { value = 3 }) 1
        (record { value = "ale" }) three_litres
    ∷ new_beer_availability_updated (record { value = 2 }) 5 (record { value = "ipa" })
        (record { value = pos 1; unit_of_measure = "Lt" }) "o"
    ∷ new_quantity_not_found (record { value = 2 }) 6 "p" three_litres three_litres
    ∷ []

project_all-Mirrors_example :
    Mirrors codec 2
      (route_all (own 2 stock_events) (0, empty)).1
      (project_all codec stock_events new_availability_service)
project_all-Mirrors_example =
    project_all-Mirrors codec 2 (own 2 stock_events) stock_events (0, empty)
      new_availability_service refl refl
