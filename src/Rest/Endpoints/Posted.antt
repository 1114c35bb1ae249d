-- ===== src/Rest/Endpoints/Posted.antt =====
-- What a posted body becomes, from the route to the bus.
use cj_beer_company.Prelude.{String, ◌≡◌, refl, some, length, inl, inr, ◌⊎◌}
use cj_beer_company.CustomTypes.{UuidCodec}
use cj_beer_company.Outcome.{Error, ok, err, Exec, Result-cases, pure, ◌>>◌}
use cj_beer_company.Muflone.ServiceBus.{ServiceBus, MessageType, send}
use cj_beer_company.Sales.Commands.{SalesCommand, CreateSalesOrder, create_order}
use cj_beer_company.Sales.Facade.{SalesOrderJson, SalesOrderQueries, Draws, request_sales_order}
use cj_beer_company.Sales.Facade.Accepted as Orders
use cj_beer_company.Warehouses.Commands.{
  WarehouseCommand, UpdateAvailabilityDueToProductionOrder, due_to_production,
}
use cj_beer_company.Warehouses.Facade.{ProductionOrderJson, AvailabilityQueries, request_production}
use cj_beer_company.Warehouses.Facade.Accepted as Productions
use cj_beer_company.Rest.{status_of}
use cj_beer_company.Rest.Facades.{Modules, on_wire, new_facades}
use cj_beer_company.Rest.Endpoints.{
  Response, Options, post_sales, post_availability, identified, json, created, respond_error, reply,
  handle,
}

module _ {Q P B : Type 0} where
  -- One message was handed to the bus. Where the bus took it the response is that of success, or else
  -- that of the error; the read models are as they were.
  pub data Delivery (attempt : Exec B Unit) (success : Response) (w : Modules Q P B)
      (r : Response × Modules Q P B) : Type 0 where
    delivered :
        (attempt w.bus).0 ≡ ok tt
        → r ≡ (success, record w { bus = (attempt w.bus).1 })
        → Delivery attempt success w r
    undelivered :
        (e : Error)
        → (attempt w.bus).0 ≡ err e
        → r ≡ (respond_error e, record w { bus = (attempt w.bus).1 })
        → Delivery attempt success w r

  -- A rule is violated: status 400, and nothing behind the facades has changed.
  abbrev pub IsRefused : Modules Q P B → Response × Modules Q P B → Type 0
  IsRefused w r = (r.0.code ≡ 400) × (r.1 ≡ w)

  reply-Delivery :
      (attempt : Exec B Unit) (success : String → Response) (id : String) (w : Modules Q P B)
      → Delivery attempt (success id) w (reply success (on_wire (attempt >> pure id) w))
  unfolding reply
  reply-Delivery attempt success id w = elim (Result-cases (attempt w.bus).0) [
    | inl (u, sent) ↦ delivered sent (rw sent refl)
    | inr (e, failed) ↦ undelivered e failed (rw failed refl)
  ]

  reply-IsRefused :
      (success : String → Response) (message : String) (w : Modules Q P B)
      → IsRefused w (reply success (on_wire (λ b. (err (Error.invalid message), b)) w))
  unfolding reply respond_error status_of
  reply-IsRefused success message w = (refl, refl)

  module _ (uuids : UuidCodec) (bus : ServiceBus B) (sales_commands : MessageType SalesCommand)
      (warehouse_commands : MessageType WarehouseCommand) (orders : SalesOrderQueries Q)
      (stocks : AvailabilityQueries P) (options : Options (Modules Q P B)) where
    -- A command for the order, and the response that names it.
    abbrev pub IsOrdered : SalesOrderJson → Modules Q P B → Response × Modules Q P B → Type 0
    IsOrdered body w r =
        (command : CreateSalesOrder) × (command.base.aggregate_id ≡ command.sales_order_id.value)
        × (length command.rows ≡ length body.rows)
        × Delivery (send bus sales_commands (create_order command))
            (created (uuids.to_string command.sales_order_id.value)) w r

    -- A command for the beer, and the response that names it.
    abbrev pub IsReported : ProductionOrderJson → Modules Q P B → Response × Modules Q P B → Type 0
    IsReported body w r =
        (command : UpdateAvailabilityDueToProductionOrder) × (uuids.parse body.beer_id
          ≡ some command.beer_id.value)
        × (command.quantity ≡ body.quantity)
        × Delivery (send bus warehouse_commands (due_to_production command))
            (json 202 (identified (uuids.to_string command.beer_id.value))) w r

    IsOrdered-of :
        (draws : Draws) (body : SalesOrderJson) (w : Modules Q P B)
        → Orders.Answer uuids bus sales_commands body w.bus
            (request_sales_order uuids bus sales_commands draws body w.bus)
        → let r =
            reply created (on_wire (request_sales_order uuids bus sales_commands draws body) w) in
          IsRefused w r ⊎ IsOrdered body w r
    IsOrdered-of draws body w (Orders.refused message same) =
        rw same (inl (reply-IsRefused created message w))
    IsOrdered-of draws body w (Orders.sent command addressed number name rows same) = rw same (
        inr (
          command,
          addressed,
          rows,
          reply-Delivery (send bus sales_commands (create_order command)) created
              (uuids.to_string command.sales_order_id.value) w,
        ))

    IsReported-of :
        (draws : Draws) (body : ProductionOrderJson) (w : Modules Q P B)
        → Productions.Answer uuids bus warehouse_commands body w.bus
            (request_production uuids bus warehouse_commands draws.commit body w.bus)
        → let r =
            reply
              (λ beer_id. json 202 (identified beer_id))
              (on_wire (request_production uuids bus warehouse_commands draws.commit body) w) in
          IsRefused w r ⊎ IsReported body w r
    IsReported-of draws body w (Productions.refused message bad same) =
        rw same (inl (reply-IsRefused _ message w))
    IsReported-of draws body w (Productions.sent command parsed addressed name quantity same) =
        rw same (
          inr (
            command,
            parsed,
            quantity,
            reply-Delivery (send bus warehouse_commands (due_to_production command)) _
                (uuids.to_string command.beer_id.value) w,
          ))

    -- A body that is posted is refused with status 400 and changes nothing, or becomes one command. The
    -- response is 201 with the place of the order, or 202 with the id of the beer, exactly if the bus took
    -- the command; the read models are not touched.
    pub handle-posts :
        (draws : Draws) (order : SalesOrderJson) (production : ProductionOrderJson)
        (w : Modules Q P B)
        → let facades = new_facades uuids bus sales_commands warehouse_commands orders stocks in
          let ordered = handle options facades draws (post_sales (ok order)) w in
          let reported = handle options facades draws (post_availability (ok production)) w in
          (IsRefused w ordered ⊎ IsOrdered order w ordered)
          × (IsRefused w reported ⊎ IsReported production w reported)
    unfolding handle new_facades
    handle-posts draws order production w = (
      IsOrdered-of draws order w
          (Orders.request_sales_order-Answer uuids bus sales_commands draws order w.bus),
      IsReported-of draws production w (
          Productions.request_production-Answer uuids bus warehouse_commands draws.commit production
            w.bus),
    )
