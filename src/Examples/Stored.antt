-- ===== src/Examples/Stored.antt =====
-- A stored event that is read back.
use cj_beer_company.Prelude.{◌≡◌, refl, some, []}
use cj_beer_company.Outcome.{Result, ok, err, failed}
use cj_beer_company.Muflone.Message.{new_domain_event_base}
use cj_beer_company.Muflone.Registry.{deserialize}
use cj_beer_company.Warehouses.Events.{QuantityNotFound, quantity_not_found}
use cj_beer_company.Warehouses.Registry.{Decoders, warehouses_event_registry, deserialize-stored}
use cj_beer_company.Examples.Data.{three_litres}

abbrev short : QuantityNotFound
short = record {
  base = new_domain_event_base 2 1;
  beer_id = record { value = 2 };
  sales_order_id = "o";
  requested = three_litres;
  available = three_litres;
}

abbrev unread : {M : Type 0} → Result M
unread = err (failed "not read")

abbrev decoders : Decoders
decoders = record {
  of_produced = λ p. unread;
  of_beer_updated = λ p. unread;
  of_quantity_not_found = λ p. ok short;
  of_compensated = λ p. unread;
  of_allocation_started = λ p. unread;
  of_step_succeeded = λ p. unread;
  of_step_failed = λ p. unread;
  of_step_compensated = λ p. unread;
  of_allocation_completed = λ p. unread;
  of_allocation_rejected = λ p. unread;
}

deserialize-stored_example :
    deserialize 1 (warehouses_event_registry decoders) "warehouses.quantity_not_found" []
    ≡ some (ok (quantity_not_found short))
deserialize-stored_example = deserialize-stored decoders 0 (quantity_not_found short) [] refl
