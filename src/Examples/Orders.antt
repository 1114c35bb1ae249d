-- ===== src/Examples/Orders.antt =====
-- A sales order that two verdicts reach, and its projection.
use cj_beer_company.Prelude.{◌≤◌, ◌≡◌, refl, List, [], ◌∷◌, map, take, drop}
use cj_beer_company.Prelude.Int.{pos, negsuc, pos_part}
use cj_beer_company.CustomTypes.{Uuid, new_page}
use cj_beer_company.Outcome.{ok, err}
use cj_beer_company.Outcome.{World}
use cj_beer_company.Dict.{lookup}
use cj_beer_company.Muflone.EventStore.{
  InMemoryEventStore, new_in_memory_event_store, in_memory, stream_of, read_stream, append,
}
use cj_beer_company.Muflone.Repository.{Repository}
use cj_beer_company.Muflone.Repository.Contract.{in_memory-IsEventStore}
use cj_beer_company.Muflone.Repository.Known.{IsReadable}
use cj_beer_company.Sales.Commands.{CreateSalesOrder, new_create_sales_order}
use cj_beer_company.Sales.SalesOrder.{SalesOrder, router}
use cj_beer_company.Sales.Handlers.{handle_create}
use cj_beer_company.Sales.Handlers.Redelivery.{IsQuiet, handle_create-again}
use cj_beer_company.Prelude.{none, String}
use cj_beer_company.Sales.Events.{SalesEvent, new_sales_order_created}
use cj_beer_company.Sales.SalesOrder.{Aggregate, new_sales_order, rejected, create_sales_order}
use cj_beer_company.Sales.SalesOrder.Settlement.{
  Verdict, accept, refuse, settle, settle_all, left_by, settle_all-first,
}
use cj_beer_company.Sales.ReadModel.{
  SalesOrderDto, SalesOrderService, new_sales_order_service, stub, create_sales_order_dto,
  update_allocation_status, project, get_sales_orders, order_at,
}
use cj_beer_company.Sales.ReadModel.Order.{create-update, project-again}
use cj_beer_company.Sales.ReadModel.Paging.{get_sales_orders-new_page}
use cj_beer_company.Examples.Data.{codec}

abbrev some_order : Aggregate
some_order =
    elim (create_sales_order (record { value = 7 }) 1 (record { value = "2024-1" })
      (record { value = 5 }) (record { value = 8 }) (record { value = "muflone" }) []) [
        | ok t ↦ t
        | err e ↦ new_sales_order
      ]

abbrev later : List (Uuid × Verdict)
later = (3, accept) ∷ (4, refuse "late") ∷ []

settle_all-first_example :
    (settle_all ((2, refuse "short") ∷ later) some_order
      ≡ left_by some_order (settle 2 (refuse "short") some_order))
    × ((settle_all ((2, refuse "short") ∷ later) some_order).state.allocation ≡ rejected)
unfolding create_sales_order
settle_all-first_example = settle_all-first 2 (refuse "short") later some_order refl

abbrev dto : SalesOrderDto
dto = record (stub "o") { sales_order_number = "2024-1" }

create-update_example :
    create_sales_order_dto dto
      (update_allocation_status "o" "rejected" "short" new_sales_order_service)
    ≡ update_allocation_status "o" "rejected" "short"
        (create_sales_order_dto dto new_sales_order_service)
create-update_example = create-update dto "rejected" "short" new_sales_order_service refl

abbrev created : SalesEvent
created =
    new_sales_order_created (record { value = 7 }) 1 (record { value = "2024-1" })
      (record { value = 5 }) (record { value = 8 }) (record { value = "muflone" }) []

project-again_example :
    project codec created (project codec created new_sales_order_service)
    ≡ project codec created new_sales_order_service
project-again_example = project-again codec created new_sales_order_service

abbrev two_orders : SalesOrderService
two_orders = create_sales_order_dto (stub "p") (create_sales_order_dto dto new_sales_order_service)

get_sales_orders-new_page_example :
    (get_sales_orders (new_page (pos 1000) (negsuc 4)) two_orders
      ≡ ok (
          map (order_at two_orders) (
            take
              (pos_part (new_page (pos 1000) (negsuc 4)).limit)
              (drop (pos_part (new_page (pos 1000) (negsuc 4)).offset) two_orders.order))))
    × (1 ≤ pos_part (new_page (pos 1000) (negsuc 4)).limit)
    × (pos_part (new_page (pos 1000) (negsuc 4)).limit ≤ 200)
get_sales_orders-new_page_example = get_sales_orders-new_page (pos 1000) (negsuc 4) two_orders

-- Orders over the in-memory store; nothing is published.
abbrev orders : Repository SalesOrder SalesEvent (InMemoryEventStore SalesEvent) (List String)
orders = record { store = in_memory; router = router; stream_name = "SalesOrder"; publisher = none }

abbrev no_orders : World (InMemoryEventStore SalesEvent) (List String)
no_orders = record { store = new_in_memory_event_store; bus = [] }

abbrev create_seven : CreateSalesOrder
create_seven =
    new_create_sales_order (record { value = 7 }) 1 (record { value = "2024-1" })
      (record { value = 5 }) (record { value = 8 }) (record { value = "muflone" }) []

always-IsReadable_orders : IsReadable (in_memory {E = SalesEvent})
unfolding read_stream
always-IsReadable_orders k s = (stream_of k s, refl)

handle_create-again_example :
    IsQuiet codec orders in_memory-IsEventStore
      (handle_create codec orders 20 100 create_seven no_orders).1
      (handle_create codec orders 21 200 create_seven
        (handle_create codec orders 20 100 create_seven no_orders).1)
unfolding handle_create read_stream lookup new_in_memory_event_store append
handle_create-again_example =
    handle_create-again codec orders in_memory-IsEventStore always-IsReadable_orders 20 21 100 200
      create_seven no_orders refl refl
