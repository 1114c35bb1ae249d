-- ===== src/Warehouses/Availability.antt =====
-- internal/warehouses/domain/availability.go: the event-sourced stock of one beer.
pub mod Held
pub mod Stock
pub mod Ledger
pub mod Conservation
pub mod Idempotence
use cj_beer_company.Prelude.{String, Bool, true, false, List, [], ◌∷◌, str_eq, if◌then◌else◌}
use cj_beer_company.Prelude.Int.{ℤ, pos, leb_ℤ, ltb_ℤ, add64, sub64}
use cj_beer_company.CustomTypes.{Uuid, Quantity, new_quantity}
use cj_beer_company.Outcome.{Result, ok, err, Error, invalid}
use cj_beer_company.Muflone.Aggregate.{Router, AggregateRoot, new_aggregate, raise_event}
use cj_beer_company.Warehouses.SharedKernel.{BeerId, BeerName}
use cj_beer_company.Warehouses.Events.{
  WarehouseEvent, produced, beer_updated, quantity_not_found, compensated,
  new_availability_updated_due_to_production_order, new_beer_availability_updated,
  new_quantity_not_found, new_availability_compensated,
}
use Held.{contains, hold, release}

abbrev pub stream_name : String
stream_name = "Availability"

abbrev pub err_invalid_quantity : Error
err_invalid_quantity = invalid "quantity must be positive"

-- `held`, a `map[string]struct{}`, is the set of the orders with stock allocated.
pub record Availability : Type 0 where
  pub beer_id : BeerId
  pub beer_name : BeerName
  pub quantity : Quantity
  pub held : List String

abbrev pub Aggregate : Type 0
Aggregate = AggregateRoot Availability WarehouseEvent

-- The zero values of the struct's fields.
abbrev pub empty : Availability
empty = record {
  beer_id = record { value = 0 };
  beer_name = record { value = "" };
  quantity = new_quantity (pos 0) "";
  held = [];
}

abbrev apply_availability_updated : BeerId → BeerName → Quantity → Availability → Availability
apply_availability_updated beer_id beer_name quantity a = record a {
  beer_id = beer_id;
  beer_name = beer_name;
  quantity = quantity;
}

-- Route; every updating event sets the id to the beer's.
unfoldable pub route : WarehouseEvent → Uuid → Availability → Uuid × Availability
unfolding hold release contains
route (produced e) id a =
    (e.beer_id.value, apply_availability_updated e.beer_id e.beer_name e.quantity a)
route (beer_updated e) id a =
    let updated = apply_availability_updated e.beer_id e.beer_name e.quantity a in
    (
      e.beer_id.value,
      if str_eq e.sales_order_id ""
          then updated
          else record updated { held = hold e.sales_order_id updated.held },
    )
route (compensated e) id a =
    let updated = apply_availability_updated e.beer_id e.beer_name e.quantity a in
    (e.beer_id.value, record updated { held = release e.sales_order_id updated.held })
route (quantity_not_found e) id a = (e.beer_id.value, record a { beer_id = e.beer_id })
route _ id a = (id, a)

abbrev pub router : Router Availability WarehouseEvent
router = record { initial = empty; route = route }

unfoldable pub new_availability : Aggregate
unfolding new_aggregate
new_availability = new_aggregate router

unfoldable pub create_availability : BeerId → Uuid → BeerName → Quantity → Result Aggregate
unfolding new_availability raise_event route
create_availability beer_id commit_id beer_name quantity =
    if leb_ℤ quantity.value (pos 0)
    then err err_invalid_quantity
    else ok (
        raise_event router
          (new_availability_updated_due_to_production_order beer_id commit_id beer_name quantity)
          new_availability)

unfoldable pub update_due_to_production_order :
    Uuid → BeerName → Quantity → Aggregate → Result Aggregate
unfolding raise_event route
update_due_to_production_order commit_id beer_name quantity a =
    if leb_ℤ quantity.value (pos 0)
    then err err_invalid_quantity
    else ok (
        raise_event router
          (new_availability_updated_due_to_production_order a.state.beer_id commit_id beer_name
            (new_quantity (add64 a.state.quantity.value quantity.value) quantity.unit_of_measure))
          a)

unfoldable pub update_due_to_sales_order : Uuid → Quantity → String → Aggregate → Result Aggregate
unfolding raise_event route contains
update_due_to_sales_order commit_id quantity sales_order_id a =
    let current = a.state.quantity in
    let re_emitted =
      new_beer_availability_updated a.state.beer_id commit_id a.state.beer_name current
        sales_order_id in
    let refused =
      new_quantity_not_found a.state.beer_id commit_id sales_order_id quantity current in
    let remaining = new_quantity (sub64 current.value quantity.value) current.unit_of_measure in
    let allocated =
      new_beer_availability_updated a.state.beer_id commit_id a.state.beer_name remaining
        sales_order_id in
    if leb_ℤ quantity.value (pos 0)
    then err err_invalid_quantity
    else if contains sales_order_id a.state.held
    then ok (raise_event router re_emitted a)
    else if ltb_ℤ current.value quantity.value
    then ok (raise_event router refused a)
    else ok (raise_event router allocated a)

unfoldable pub refuse_unknown_beer : BeerId → Uuid → Quantity → String → Aggregate
unfolding new_availability raise_event route
refuse_unknown_beer beer_id commit_id requested sales_order_id =
    raise_event router
      (new_quantity_not_found beer_id commit_id sales_order_id requested
        (new_quantity (pos 0) requested.unit_of_measure))
      new_availability

unfoldable pub compensate_due_to_failed_allocation :
    Uuid → Quantity → String → Aggregate → Result Aggregate
unfolding raise_event route contains
compensate_due_to_failed_allocation commit_id quantity sales_order_id a =
    let current = a.state.quantity in
    let re_emitted =
      new_availability_compensated a.state.beer_id commit_id a.state.beer_name current
        sales_order_id in
    let new_total = new_quantity (add64 current.value quantity.value) current.unit_of_measure in
    let given_back =
      new_availability_compensated a.state.beer_id commit_id a.state.beer_name new_total
        sales_order_id in
    if leb_ℤ quantity.value (pos 0)
    then err err_invalid_quantity
    else if contains sales_order_id a.state.held
    then ok (raise_event router given_back a)
    else ok (raise_event router re_emitted a)
