-- ===== src/Sales/Integration.antt =====
-- internal/sales/integration/allocation_outcome_handler.go: the saga's outcome becomes a command that
-- settles the order. Logging is left out.
pub mod Handling
use cj_beer_company.Prelude.{String, Option, none, some}
use cj_beer_company.CustomTypes.{Uuid, UuidCodec}
use cj_beer_company.Outcome.{Result, ok, err, panicked, Exec, pure, lift, ◌>>=◌}
use cj_beer_company.Muflone.Registry.{Payload}
use cj_beer_company.Muflone.ServiceBus.{ServiceBus, MessageType, send}
use cj_beer_company.Sales.SharedKernel.{SalesOrderId}
use cj_beer_company.Sales.Commands.{
  SalesCommand, mark_allocated_order, mark_rejected_order, new_mark_sales_order_allocated,
  new_mark_sales_order_allocation_rejected,
}

pub record AllocationOutcomeMessage : Type 0 where
  pub commit_id : Uuid
  pub sales_order_id : String
  pub reason : String

-- `unmarshal` is json.Unmarshal into the message.
pub record AllocationOutcomeHandler (B : Type 0) : Type 0 where
  pub bus : ServiceBus B
  pub commands : MessageType SalesCommand
  pub unmarshal : Payload → Result AllocationOutcomeMessage

module _ {B : Type 0} (uuids : UuidCodec) (h : AllocationOutcomeHandler B) where
  keep_parsed : AllocationOutcomeMessage → Option Uuid → Option AllocationOutcomeMessage
  keep_parsed message none = none
  keep_parsed message (some id) = some message

  -- `nil, nil`, a message that is acknowledged and dropped, is `none`.
  unfoldable pub parse : Payload → Exec B (Option AllocationOutcomeMessage)
  unfolding keep_parsed
  parse payload = do
    message ← lift (h.unmarshal payload)
    pure (keep_parsed message (uuids.parse message.sales_order_id))

  must_parse_order : Option Uuid → Result SalesOrderId
  must_parse_order none = err panicked
  must_parse_order (some id) = ok (record { value = id })

  send_allocated : Option AllocationOutcomeMessage → Exec B Unit
  unfolding must_parse_order send
  send_allocated none = pure tt
  send_allocated (some message) = do
    order ← lift (must_parse_order (uuids.parse message.sales_order_id))
    send h.bus h.commands
        (mark_allocated_order (new_mark_sales_order_allocated order message.commit_id))

  unfoldable pub on_allocation_completed : Payload → Exec B Unit
  unfolding parse send_allocated
  on_allocation_completed payload = do message ← parse payload; send_allocated message

  send_rejected : Option AllocationOutcomeMessage → Exec B Unit
  unfolding must_parse_order send
  send_rejected none = pure tt
  send_rejected (some message) = do
    order ← lift (must_parse_order (uuids.parse message.sales_order_id))
    send h.bus h.commands (
        mark_rejected_order
          (new_mark_sales_order_allocation_rejected order message.commit_id message.reason))

  unfoldable pub on_allocation_rejected : Payload → Exec B Unit
  unfolding parse send_rejected
  on_allocation_rejected payload = do message ← parse payload; send_rejected message
