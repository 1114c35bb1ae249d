-- ===== src/App/Wiring/Handled.antt =====
-- Every command has one handler, and the modules hear each other.
use cj_beer_company.Prelude.{String, ◌≡◌, refl, ap, ◌∙◌, [], ◌∷◌}
use cj_beer_company.Outcome.{ok, Exec}
use cj_beer_company.Muflone.Registry.{Payload}
use cj_beer_company.Muflone.ServiceBus.{command_topic_prefix, integration_event_topic_prefix}
use cj_beer_company.Muflone.Subscriptions.{
  Message, subscribe, decoding, consumers_of, hand_to, deliver, register_command_handler,
  register_domain_event_handler, subscribe_integration_event, new_service_bus,
}
use cj_beer_company.Sales.Commands.{
  SalesCommand, create_order, mark_allocated_order, mark_rejected_order, sales_command_name,
}
use cj_beer_company.Warehouses.Commands.{
  WarehouseCommand, due_to_production, due_to_sales, compensate, command_name,
}
use cj_beer_company.App.Wiring.{
  Handling, SalesHandlers, WarehouseHandlers, command, event, register_sales, register_warehouses,
  registered,
}
use Prim.Native.String.{◌++◌ as ◌<>◌}

module _ {W : Type 0} (sales : SalesHandlers W) (warehouses : WarehouseHandlers W) where
  -- The handler of a command, and that its decoder gives the command back.
  abbrev pub handle_sales : SalesCommand → Exec W Unit
  handle_sales (create_order c) = sales.create_sales_order.handle c
  handle_sales (mark_allocated_order c) = sales.mark_allocated.handle c
  handle_sales (mark_rejected_order c) = sales.mark_rejected.handle c

  abbrev pub IsSalesPayload : Payload → SalesCommand → Type 0
  IsSalesPayload p (create_order c) = sales.create_sales_order.unmarshal p ≡ ok c
  IsSalesPayload p (mark_allocated_order c) = sales.mark_allocated.unmarshal p ≡ ok c
  IsSalesPayload p (mark_rejected_order c) = sales.mark_rejected.unmarshal p ≡ ok c

  abbrev pub handle_warehouses : WarehouseCommand → Exec W Unit
  handle_warehouses (due_to_production c) = warehouses.due_to_production.handle c
  handle_warehouses (due_to_sales c) = warehouses.due_to_sales.handle c
  handle_warehouses (compensate c) = warehouses.compensate.handle c

  abbrev pub IsWarehousePayload : Payload → WarehouseCommand → Type 0
  IsWarehousePayload p (due_to_production c) = warehouses.due_to_production.unmarshal p ≡ ok c
  IsWarehousePayload p (due_to_sales c) = warehouses.due_to_sales.unmarshal p ≡ ok c
  IsWarehousePayload p (compensate c) = warehouses.compensate.unmarshal p ≡ ok c

  -- A message was handled once, and this is how.
  abbrev pub HandledBy : String → Message → Exec W Unit → W → Type 0
  HandledBy topic msg handler w =
      deliver topic msg (registered sales warehouses) w ≡ ((handler w).0 ∷ [], (handler w).1)

  hand_to-one :
      {M : Type 0} (x : Handling W M) (m : M) (msg : Message) (w : W)
      → x.unmarshal msg.payload ≡ ok m
      → hand_to msg (decoding x.unmarshal x.handle ∷ []) w
        ≡ ((x.handle m w).0 ∷ [], (x.handle m w).1)
  unfolding hand_to decoding
  hand_to-one x m msg w h = rw h refl

  sales_consumer : SalesCommand → Message → Exec W Unit
  unfolding decoding
  sales_consumer (create_order c) =
      decoding sales.create_sales_order.unmarshal sales.create_sales_order.handle
  sales_consumer (mark_allocated_order c) =
      decoding sales.mark_allocated.unmarshal sales.mark_allocated.handle
  sales_consumer (mark_rejected_order c) =
      decoding sales.mark_rejected.unmarshal sales.mark_rejected.handle

  consumers_of-sales :
      (c : SalesCommand)
      → consumers_of (command_topic_prefix <> sales_command_name c) (registered sales warehouses)
        ≡ sales_consumer c ∷ []
  unfolding registered register_sales register_warehouses command event register_command_handler
      register_domain_event_handler subscribe_integration_event new_service_bus subscribe
      consumers_of decoding sales_consumer
  consumers_of-sales (create_order c) = refl
  consumers_of-sales (mark_allocated_order c) = refl
  consumers_of-sales (mark_rejected_order c) = refl

  warehouse_consumer : WarehouseCommand → Message → Exec W Unit
  unfolding decoding
  warehouse_consumer (due_to_production c) =
      decoding warehouses.due_to_production.unmarshal warehouses.due_to_production.handle
  warehouse_consumer (due_to_sales c) =
      decoding warehouses.due_to_sales.unmarshal warehouses.due_to_sales.handle
  warehouse_consumer (compensate c) =
      decoding warehouses.compensate.unmarshal warehouses.compensate.handle

  consumers_of-warehouses :
      (c : WarehouseCommand)
      → consumers_of (command_topic_prefix <> command_name c) (registered sales warehouses)
        ≡ warehouse_consumer c ∷ []
  unfolding registered register_sales register_warehouses command event register_command_handler
      register_domain_event_handler subscribe_integration_event new_service_bus subscribe
      consumers_of decoding warehouse_consumer
  consumers_of-warehouses (due_to_production c) = refl
  consumers_of-warehouses (due_to_sales c) = refl
  consumers_of-warehouses (compensate c) = refl

  hand_to-sales :
      (c : SalesCommand) (msg : Message) (w : W)
      → IsSalesPayload msg.payload c
      → hand_to msg (sales_consumer c ∷ []) w ≡ ((handle_sales c w).0 ∷ [], (handle_sales c w).1)
  unfolding sales_consumer
  hand_to-sales (create_order c) msg w h = hand_to-one sales.create_sales_order c msg w h
  hand_to-sales (mark_allocated_order c) msg w h = hand_to-one sales.mark_allocated c msg w h
  hand_to-sales (mark_rejected_order c) msg w h = hand_to-one sales.mark_rejected c msg w h

  hand_to-warehouses :
      (c : WarehouseCommand) (msg : Message) (w : W)
      → IsWarehousePayload msg.payload c
      → hand_to msg (warehouse_consumer c ∷ []) w
        ≡ ((handle_warehouses c w).0 ∷ [], (handle_warehouses c w).1)
  unfolding warehouse_consumer
  hand_to-warehouses (due_to_production c) msg w h =
      hand_to-one warehouses.due_to_production c msg w h
  hand_to-warehouses (due_to_sales c) msg w h = hand_to-one warehouses.due_to_sales c msg w h
  hand_to-warehouses (compensate c) msg w h = hand_to-one warehouses.compensate c msg w h

  announced :
      (msg : Message) (w : W)
      → HandledBy
          (integration_event_topic_prefix <> "sales.sales_order_created")
          msg
          (warehouses.on_sales_order_created msg.payload)
          w
  unfolding registered register_sales register_warehouses command event register_command_handler
      register_domain_event_handler subscribe_integration_event new_service_bus subscribe
      consumers_of hand_to deliver
  announced msg w = refl

  answered :
      (msg : Message) (w : W)
      → HandledBy
          (integration_event_topic_prefix <> "warehouses.order_allocation_completed")
          msg
          (sales.on_allocation_completed msg.payload)
          w
        × HandledBy
            (integration_event_topic_prefix <> "warehouses.order_allocation_rejected")
            msg
            (sales.on_allocation_rejected msg.payload)
            w
  unfolding registered register_sales register_warehouses command event register_command_handler
      register_domain_event_handler subscribe_integration_event new_service_bus subscribe
      consumers_of hand_to deliver
  answered msg w = (refl, refl)

  -- With both modules registered, a message under the topic of a command is handled once, by the handler
  -- of that command, if the payload decodes to it; what Sales announces reaches the saga alone, and the
  -- two outcomes of the saga each reach one handler of Sales.
  pub deliver-HandledBy :
      (c : SalesCommand) (d : WarehouseCommand) (msg : Message) (note : Message) (w : W)
      → IsSalesPayload msg.payload c
      → IsWarehousePayload note.payload d
      → HandledBy (command_topic_prefix <> sales_command_name c) msg (handle_sales c) w
        × HandledBy (command_topic_prefix <> command_name d) note (handle_warehouses d) w
        × HandledBy
            (integration_event_topic_prefix <> "sales.sales_order_created")
            msg
            (warehouses.on_sales_order_created msg.payload)
            w
        × HandledBy
            (integration_event_topic_prefix <> "warehouses.order_allocation_completed")
            msg
            (sales.on_allocation_completed msg.payload)
            w
        × HandledBy
            (integration_event_topic_prefix <> "warehouses.order_allocation_rejected")
            msg
            (sales.on_allocation_rejected msg.payload)
            w
  unfolding deliver
  deliver-HandledBy c d msg note w h k = (
    ap (λ handlers. hand_to msg handlers w) (consumers_of-sales c) ∙ hand_to-sales c msg w h,
    ap (λ handlers. hand_to note handlers w) (consumers_of-warehouses d)
        ∙ hand_to-warehouses d note w k,
    announced msg w,
    (answered msg w).0,
    (answered msg w).1,
  )
