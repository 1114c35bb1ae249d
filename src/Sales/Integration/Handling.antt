-- ===== src/Sales/Integration/Handling.antt =====
-- Messages that Sales cannot act on are dropped, and uuid.MustParse never panics.
use cj_beer_company.Prelude.{◌≡◌, refl, none, some, Option-cases, inl, inr}
use cj_beer_company.CustomTypes.{Uuid, UuidCodec}
use cj_beer_company.Outcome.{Error, Result, ok, err, Result-cases}
use cj_beer_company.Muflone.Registry.{Payload}
use cj_beer_company.Muflone.ServiceBus.{send}
use cj_beer_company.Sales.Commands.{
  SalesCommand, mark_allocated_order, mark_rejected_order, new_mark_sales_order_allocated,
  new_mark_sales_order_allocation_rejected,
}
use cj_beer_company.Sales.Integration.{
  AllocationOutcomeMessage, AllocationOutcomeHandler, parse, keep_parsed, send_allocated,
  send_rejected, must_parse_order, on_allocation_completed, on_allocation_rejected,
}

module _ {B : Type 0} (uuids : UuidCodec) (h : AllocationOutcomeHandler B) where
  -- The three ways in which a message is handled; `command` is what it becomes.
  pub data Handling (command : Uuid → AllocationOutcomeMessage → SalesCommand) (payload : Payload)
      (b : B) (r : Result (Unit {0}) × B) : Type 0 where
    unreadable :
        (e : Error) → h.unmarshal payload ≡ err e → r ≡ (err e, b) → Handling command payload b r
    dropped :
        (m : AllocationOutcomeMessage)
        → h.unmarshal payload ≡ ok m
        → uuids.parse m.sales_order_id ≡ none
        → r ≡ (ok tt, b)
        → Handling command payload b r
    forwarded :
        (m : AllocationOutcomeMessage) (id : Uuid)
        → h.unmarshal payload ≡ ok m
        → uuids.parse m.sales_order_id ≡ some id
        → r ≡ send h.bus h.commands (command id m) b
        → Handling command payload b r

  abbrev pub as_allocated : Uuid → AllocationOutcomeMessage → SalesCommand
  as_allocated id m =
      mark_allocated_order (new_mark_sales_order_allocated (record { value = id }) m.commit_id)

  abbrev pub as_rejected : Uuid → AllocationOutcomeMessage → SalesCommand
  as_rejected id m =
      mark_rejected_order
        (new_mark_sales_order_allocation_rejected (record { value = id }) m.commit_id m.reason)

  -- Either outcome message, whatever its payload is, is handled in one of three ways: an unreadable
  -- one is the error of the decoder, one without an order's id is acknowledged and dropped, and any
  -- other is the command that settles that order, handed to the bus. In none of them does the parsing
  -- of the id panic.
  pub on_allocation-Handling :
      (payload : Payload) (b : B)
      → Handling as_allocated payload b (on_allocation_completed uuids h payload b)
        × Handling as_rejected payload b (on_allocation_rejected uuids h payload b)
  unfolding on_allocation_completed on_allocation_rejected parse keep_parsed send_allocated
      send_rejected must_parse_order
  on_allocation-Handling payload b = elim (Result-cases (h.unmarshal payload)) [
    | inr (e, bad) ↦ (unreadable e bad (rw bad refl), unreadable e bad (rw bad refl))
    | inl (m, read) ↦ elim (Option-cases (uuids.parse m.sales_order_id)) [
      | inl gone ↦
          (dropped m read gone (rw (read, gone) refl), dropped m read gone (rw (read, gone) refl))
      | inr (id, there) ↦ (
        forwarded m id read there (rw (read, there, there) refl),
        forwarded m id read there (rw (read, there, there) refl),
      )
    ]
  ]
