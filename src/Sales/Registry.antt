-- ===== src/Sales/Registry.antt =====
-- internal/sales/module.go, NewEventRegistry: every event that the module stores can be read back.
use cj_beer_company.Prelude.{ℕ, suc, ◌≡◌, ap, some}
use cj_beer_company.Outcome.{Result, ok, err}
use cj_beer_company.Dict.{lookup, insert}
use cj_beer_company.Muflone.Registry.{
  Payload, EventRegistry, new_event_registry, register_event, rehydrate, deserialize,
}
use cj_beer_company.Sales.Events.{
  SalesOrderCreated, SalesOrderAllocated, SalesOrderAllocationRejected, SalesEvent, order_created,
  order_allocated, order_rejected, sales_event_name,
}

-- json.Unmarshal at each type of event.
pub record Decoders : Type 0 where
  pub of_created : Payload → Result SalesOrderCreated
  pub of_allocated : Payload → Result SalesOrderAllocated
  pub of_rejected : Payload → Result SalesOrderAllocationRejected

abbrev as_event : {M : Type 0} → (M → SalesEvent) → Result M → Result SalesEvent
as_event f (ok m) = ok (f m)
as_event f (err e) = err e

module _ (decoders : Decoders) where
  unfoldable pub sales_event_registry : EventRegistry SalesEvent
  unfolding register_event new_event_registry
  sales_event_registry =
      register_event "sales.sales_order_allocation_rejected"
        (λ p. as_event order_rejected (decoders.of_rejected p))
        (register_event "sales.sales_order_allocated"
          (λ p. as_event order_allocated (decoders.of_allocated p))
          (register_event "sales.sales_order_created"
            (λ p. as_event order_created (decoders.of_created p)) new_event_registry))

  -- The payload is that of the event, for json.Unmarshal at its type.
  abbrev pub IsPayload : Payload → SalesEvent → Type 0
  IsPayload p (order_created e) = decoders.of_created p ≡ ok e
  IsPayload p (order_allocated e) = decoders.of_allocated p ≡ ok e
  IsPayload p (order_rejected e) = decoders.of_rejected p ≡ ok e

  -- Whatever event the module stores, its name and its payload are read back as that event.
  pub deserialize-sales :
      (rounds : ℕ) (e : SalesEvent) (p : Payload)
      → IsPayload p e
      → deserialize (suc rounds) sales_event_registry (sales_event_name e) p ≡ some (ok e)
  unfolding deserialize rehydrate sales_event_registry register_event new_event_registry lookup
      insert
  deserialize-sales rounds (order_created e) p h = ap (λ r. some (as_event order_created r)) h
  deserialize-sales rounds (order_allocated e) p h = ap (λ r. some (as_event order_allocated r)) h
  deserialize-sales rounds (order_rejected e) p h = ap (λ r. some (as_event order_rejected r)) h
