-- ===== src/Sales/ReadModel/Order.antt =====
-- The order in which the events of an order arrive does not matter to the projection.
use cj_beer_company.Prelude.{
  String, ◌≡◌, refl, sym, ◌∙◌, false, Option, none, some, List, [], ◌∷◌, ◌++◌, str_eq,
  if◌then◌else◌, Bool-cases, inl, inr,
}
use cj_beer_company.CustomTypes.{UuidCodec}
use cj_beer_company.Dict.{Dict, lookup, insert, lookup-insert_self, insert-insert}
use cj_beer_company.Sales.Events.{SalesEvent, order_created, order_allocated, order_rejected}
use cj_beer_company.Sales.ReadModel.{
  project, project_created, created_dto, on_sales_order_allocated,
  on_sales_order_allocation_rejected, SalesOrderDto, SalesOrderService, or_pending, is_open_status,
  upsert, set_status, create_sales_order_dto, update_allocation_status,
}

module _ (order : SalesOrderDto) (status reason : String)
    (settled : is_open_status status ≡ false) where
  abbrev final : SalesOrderDto
  final = record order { allocation_status = status; rejection_reason = reason }

  abbrev AgreesWith : SalesOrderDto → Type 0
  AgreesWith kept = record kept { allocation_status = status; rejection_reason = reason } ≡ final

  or_pending-AgreesWith : AgreesWith (or_pending order)
  or_pending-AgreesWith = elim (Bool-cases (str_eq order.allocation_status "")) [
    | inl new ↦ rw new refl
    | inr old ↦ rw old refl
  ]

  kept-AgreesWith :
      (existing : SalesOrderDto)
      → AgreesWith (
          if is_open_status existing.allocation_status then or_pending order else record order {
            allocation_status = existing.allocation_status;
            rejection_reason = existing.rejection_reason;
          })
  kept-AgreesWith existing = elim (Bool-cases (is_open_status existing.allocation_status)) [
    | inl waits ↦ rw waits or_pending-AgreesWith
    | inr done ↦ rw done refl
  ]

  written :
      (kept : SalesOrderDto) (orders : Dict SalesOrderDto) (ids : List String)
      → AgreesWith kept
      → update_allocation_status order.id status reason
          (record { orders = insert order.id kept orders; order = ids })
        ≡ (record { orders = insert order.id final orders; order = ids })
  unfolding update_allocation_status set_status
  written kept orders ids e =
      rw (lookup-insert_self order.id kept orders, e, insert-insert order.id final kept orders) refl

  created_first :
      (found : Option SalesOrderDto) (s : SalesOrderService)
      → update_allocation_status order.id status reason (upsert order found s) ≡ (record {
        orders = insert order.id final s.orders;
        order = elim found [ none ↦ s.order ++ order.id ∷ [] | some _ ↦ s.order ];
      })
  unfolding upsert
  created_first none s = written (or_pending order) s.orders _ or_pending-AgreesWith
  created_first (some existing) s = written _ s.orders _ (kept-AgreesWith existing)

  updated_first :
      (found : Option SalesOrderDto) (s : SalesOrderService)
      → create_sales_order_dto order (set_status order.id status reason found s) ≡ (record {
        orders = insert order.id final s.orders;
        order = elim found [ none ↦ s.order ++ order.id ∷ [] | some _ ↦ s.order ];
      })
  unfolding create_sales_order_dto upsert set_status
  updated_first none s =
      rw (lookup-insert_self order.id _ s.orders, settled, insert-insert order.id final _ s.orders)
        refl
  updated_first (some existing) s =
      rw (lookup-insert_self order.id _ s.orders, settled, insert-insert order.id final _ s.orders)
        refl

-- The created projection and a settled status of the same order commute: whichever event arrives
-- first, the service ends in the same state.
pub create-update :
    (order : SalesOrderDto) (status reason : String) (s : SalesOrderService)
    → is_open_status status ≡ false
    → create_sales_order_dto order (update_allocation_status order.id status reason s)
      ≡ update_allocation_status order.id status reason (create_sales_order_dto order s)
unfolding create_sales_order_dto update_allocation_status
create-update order status reason s settled =
    let found = lookup order.id s.orders in
    updated_first order status reason settled found s
    ∙ sym (created_first order status reason settled found s)

update-again :
    (id status reason : String) (s : SalesOrderService)
    → update_allocation_status id status reason (update_allocation_status id status reason s)
      ≡ update_allocation_status id status reason s
unfolding update_allocation_status
update-again id status reason s = go (lookup id s.orders)
  where
    go :
        (found : Option SalesOrderDto)
        → update_allocation_status id status reason (set_status id status reason found s)
          ≡ set_status id status reason found s
    go none = rw (lookup-insert_self id _ s.orders, insert-insert id _ _ s.orders) refl
    go (some order) = rw (lookup-insert_self id _ s.orders, insert-insert id _ _ s.orders) refl

-- What a second upsert of the order keeps is what the first kept.
module _ (order : SalesOrderDto) where
  abbrev kept_of : SalesOrderDto → SalesOrderDto
  kept_of existing =
      if is_open_status existing.allocation_status then or_pending order else record order {
        allocation_status = existing.allocation_status;
        rejection_reason = existing.rejection_reason;
      }

  kept_of-or_pending : kept_of (or_pending order) ≡ or_pending order
  kept_of-or_pending = elim (Bool-cases (str_eq order.allocation_status "")) [
    | inl new ↦ rw new refl
    | inr old ↦ elim (Bool-cases (str_eq order.allocation_status "pending")) [
      | inl waits ↦ rw (old, old, waits) refl
      | inr done ↦ rw (old, old, done) refl
    ]
  ]

  kept_of-again : (existing : SalesOrderDto) → kept_of (kept_of existing) ≡ kept_of existing
  kept_of-again existing = elim (Bool-cases (is_open_status existing.allocation_status)) [
    | inl waits ↦ rw waits kept_of-or_pending
    | inr done ↦ rw (done, done) refl
  ]

  create-again :
      (s : SalesOrderService)
      → create_sales_order_dto order (create_sales_order_dto order s)
        ≡ create_sales_order_dto order s
  unfolding create_sales_order_dto upsert
  create-again s = go (lookup order.id s.orders)
    where
      go :
          (found : Option SalesOrderDto)
          → create_sales_order_dto order (upsert order found s) ≡ upsert order found s
      go none =
          rw
            (
              lookup-insert_self order.id _ s.orders,
              kept_of-or_pending,
              insert-insert order.id (or_pending order) _ s.orders,
            )
            refl
      go (some existing) =
          rw
            (
              lookup-insert_self order.id _ s.orders,
              kept_of-again existing,
              insert-insert order.id (kept_of existing) _ s.orders,
            )
            refl

-- Projecting an event a second time, as a redelivery does, leaves the read model as it is.
pub project-again :
    (uuids : UuidCodec) (e : SalesEvent) (s : SalesOrderService)
    → project uuids e (project uuids e s) ≡ project uuids e s
unfolding project project_created on_sales_order_allocated on_sales_order_allocation_rejected
project-again uuids (order_created e) s = create-again (created_dto uuids e) s
project-again uuids (order_allocated e) s = update-again _ _ _ s
project-again uuids (order_rejected e) s = update-again _ _ _ s
