-- ===== src/Examples/Wired.antt =====
-- The wiring of both modules, with handlers that count.
use cj_beer_company.Prelude.{ℕ, suc, refl, []}
use cj_beer_company.Outcome.{ok}
use cj_beer_company.Muflone.Subscriptions.{Message}
use cj_beer_company.Sales.Commands.{
  SalesCommand, mark_allocated_order, new_mark_sales_order_allocated,
  new_mark_sales_order_allocation_rejected, new_create_sales_order,
}
use cj_beer_company.Warehouses.Commands.{
  WarehouseCommand, due_to_sales, new_update_availability_due_to_production_order,
  new_update_availability_due_to_sales_order, new_compensate_availability_due_to_failed_allocation,
}
use cj_beer_company.App.Wiring.{Handling, SalesHandlers, WarehouseHandlers}
use cj_beer_company.App.Wiring.Handled.{
  HandledBy, handle_sales, handle_warehouses, deliver-HandledBy,
}
use cj_beer_company.Outcome.{err, failed}
use cj_beer_company.Examples.Data.{three_litres}

-- Every payload is read as the same message.
abbrev counting : {M : Type 0} → M → Handling ℕ M
counting m = record { unmarshal = λ p. ok m; handle = λ x n. (ok tt, suc n) }

abbrev unread : {M : Type 0} → Handling ℕ M
unread = record { unmarshal = λ p. err (failed "not read"); handle = λ x n. (ok tt, n) }

abbrev sales : SalesHandlers ℕ
sales = record {
  create_sales_order = counting (
      new_create_sales_order (record { value = 7 }) 1 (record { value = "2024-1" })
        (record { value = 5 }) (record { value = 8 }) (record { value = "muflone" }) []);
  mark_allocated = counting (new_mark_sales_order_allocated (record { value = 7 }) 1);
  mark_rejected =
      counting (new_mark_sales_order_allocation_rejected (record { value = 7 }) 1 "short");
  project_created = unread;
  project_allocated = unread;
  project_rejected = unread;
  announce = unread;
  on_allocation_completed = λ p n. (ok tt, n);
  on_allocation_rejected = λ p n. (ok tt, n);
}

abbrev warehouses : WarehouseHandlers ℕ
warehouses = record {
  due_to_production = counting (
      new_update_availability_due_to_production_order (record { value = 2 }) 1
        (record { value = "ipa" }) three_litres);
  due_to_sales = counting (
      new_update_availability_due_to_sales_order (record { value = 2 }) 1 (record { value = "ipa" })
        three_litres "o");
  compensate = counting (
      new_compensate_availability_due_to_failed_allocation (record { value = 2 }) 1 three_litres
        "o");
  project_produced = unread;
  project_updated = unread;
  project_compensated = unread;
  on_sales_order_created = λ p n. (ok tt, suc n);
  saga_on_updated = unread;
  saga_on_quantity_not_found = unread;
  saga_on_compensated = unread;
}

abbrev msg : Message
msg = record { payload = []; metadata = [] }

abbrev settled : SalesCommand
settled = mark_allocated_order (new_mark_sales_order_allocated (record { value = 7 }) 1)

abbrev allocate : WarehouseCommand
allocate = due_to_sales (
    new_update_availability_due_to_sales_order (record { value = 2 }) 1 (record { value = "ipa" })
      three_litres "o")

deliver-HandledBy_example :
    HandledBy sales warehouses "commands.sales.mark_sales_order_allocated" msg
      (handle_sales sales warehouses settled)
      4
    × HandledBy sales warehouses "commands.warehouses.update_availability_due_to_sales_order" msg
        (handle_warehouses sales warehouses allocate)
        4
    × HandledBy sales warehouses "integrationevents.sales.sales_order_created" msg
        (warehouses.on_sales_order_created [])
        4
    × HandledBy sales warehouses "integrationevents.warehouses.order_allocation_completed" msg
        (sales.on_allocation_completed [])
        4
    × HandledBy sales warehouses "integrationevents.warehouses.order_allocation_rejected" msg
        (sales.on_allocation_rejected [])
        4
deliver-HandledBy_example = deliver-HandledBy sales warehouses settled allocate msg msg 4 refl refl
