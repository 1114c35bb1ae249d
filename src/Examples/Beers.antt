-- ===== src/Examples/Beers.antt =====
-- A beer that is produced and then allocated to an order, over the in-memory store.
use cj_beer_company.Prelude.{String, ◌≡◌, ◌≢◌, refl, none, List, [], arith}
use cj_beer_company.Prelude.Int.{pos}
use cj_beer_company.CustomTypes.{new_quantity}
use cj_beer_company.Dict.{lookup, insert}
use cj_beer_company.Outcome.{ok, err, World}
use cj_beer_company.Muflone.EventStore.{
  InMemoryEventStore, new_in_memory_event_store, in_memory, read_stream, append,
}
use cj_beer_company.Muflone.Repository.{Repository, get_by_id}
use cj_beer_company.Muflone.Repository.Contract.{in_memory-IsEventStore}
use cj_beer_company.Warehouses.Events.{WarehouseEvent}
use cj_beer_company.Warehouses.Commands.{
  UpdateAvailabilityDueToSalesOrder, new_update_availability_due_to_production_order,
  new_update_availability_due_to_sales_order,
}
use cj_beer_company.Warehouses.Availability.{
  Availability, Aggregate, stream_name, router, new_availability, create_availability,
  update_due_to_sales_order,
}
use cj_beer_company.Warehouses.Availability.Stock.{IsStocked, Allocation}
use cj_beer_company.Warehouses.Handlers.{handle_production_order, handle_sales_order}
use cj_beer_company.Warehouses.Handlers.Redelivery.{handle_sales_order-again}
use cj_beer_company.Examples.Data.{codec, three_litres}

abbrev Store : Type 0
Store = InMemoryEventStore WarehouseEvent

abbrev beers : Repository Availability WarehouseEvent Store (List String)
beers = record { store = in_memory; router = router; stream_name = stream_name; publisher = none }

abbrev empty_cellar : World Store (List String)
empty_cellar = record { store = new_in_memory_event_store; bus = [] }

-- Ten litres of the beer 2.
abbrev cellar : World Store (List String)
cellar =
    (handle_production_order codec beers 20 100
      (new_update_availability_due_to_production_order (record { value = 2 }) 1
        (record { value = "ipa" }) (new_quantity (pos 10) "Lt"))
      empty_cellar).1

abbrev loaded_from : World Store (List String) → Aggregate
loaded_from w = elim (get_by_id codec beers 2 w).0 [ ok a ↦ a | err e ↦ new_availability ]

abbrev allocate_three : UpdateAvailabilityDueToSalesOrder
allocate_three =
    new_update_availability_due_to_sales_order (record { value = 2 }) 5 (record { value = "ipa" })
      three_litres "o"

abbrev once : World Store (List String)
once = (handle_sales_order codec beers 21 200 allocate_three cellar).1

abbrev twice : World Store (List String)
twice = (handle_sales_order codec beers 22 300 allocate_three once).1

cellar-IsStocked : IsStocked (loaded_from cellar)
unfolding handle_production_order get_by_id read_stream append lookup insert
    new_in_memory_event_store create_availability new_availability
cellar-IsStocked = omega arith

ordered : ◌≢◌ {A = String} allocate_three.sales_order_id ""
ordered = λ e. cc

handle_sales_order-again_example :
    Allocation three_litres "o" (loaded_from cellar).state (loaded_from once).state
    × ((loaded_from twice).state ≡ (loaded_from once).state)
unfolding handle_production_order get_by_id read_stream append lookup insert
    new_in_memory_event_store create_availability new_availability handle_sales_order
    update_due_to_sales_order
handle_sales_order-again_example =
    handle_sales_order-again codec beers in_memory-IsEventStore refl allocate_three 21 22 200 300
      cellar (loaded_from cellar) (loaded_from once) (loaded_from twice) (omega arith) ordered
      cellar-IsStocked refl refl refl refl refl refl
