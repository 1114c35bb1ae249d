-- ===== src/Sales/Handlers/Redelivery.antt =====
-- A command to create an order that is delivered again.
use cj_beer_company.Prelude.{
  ◌≤◌, String, ◌≡◌, refl, sym, ap, subst, ◌∙◌, ◌||◌, ◌==◌, List, ◌++◌, arith, length, length-append,
  eq_refl, Bool-cases, inl, inr,
}
use cj_beer_company.Prelude.Text.{trim_space, is_empty}
use cj_beer_company.CustomTypes.{Uuid, UuidCodec, Time}
use cj_beer_company.Outcome.{
  invalid, not_found, aggregate_not_found, concurrency, failed, panicked, Result, ok, err, World,
  continue-eq_ok,
}
use cj_beer_company.Muflone.Repository.{Repository, stream, get_by_id, save}
use cj_beer_company.Muflone.Repository.Contract.{IsEventStore}
use cj_beer_company.Muflone.Repository.RoundTrip.{view-save, view-get_by_id}
use cj_beer_company.Muflone.Repository.Known.{
  IsReadable, get_by_id-bus, length-get_by_id, get_by_id-found,
}
use cj_beer_company.Sales.SharedKernel.{
  SalesOrderId, SalesOrderNumber, OrderDate, CustomerId, CustomerName, SalesOrderRowDto,
}
use cj_beer_company.Sales.Events.{SalesEvent}
use cj_beer_company.Sales.Commands.{CreateSalesOrder}
use cj_beer_company.Sales.SalesOrder.{SalesOrder, Aggregate, create_sales_order}
use cj_beer_company.Sales.Handlers.{save_order, create_unless, handle_create}

-- A created order has the id of its command, and something to save.
abbrev IsCreated : Uuid → Result Aggregate → Type 0
IsCreated id (ok a) = (a.id ≡ id) × (1 ≤ length a.uncommitted)
IsCreated id (err e) = Unit {0}

create_sales_order-IsCreated :
    (id : SalesOrderId) (c : Uuid) (number : SalesOrderNumber) (date : OrderDate)
    (customer : CustomerId) (name : CustomerName) (rows : List SalesOrderRowDto)
    → IsCreated id.value (create_sales_order id c number date customer name rows)
unfolding create_sales_order
create_sales_order-IsCreated id c number date customer name rows =
    elim (Bool-cases
      (is_empty (trim_space number.value) || is_empty (trim_space name.value) || date.value == 0)) [
        | inl bad ↦ rw bad tt
        | inr good ↦ rw good (refl, omega arith)
      ]

module _ {S B : Type 0} (uuids : UuidCodec) (repository : Repository SalesOrder SalesEvent S B)
    (law : IsEventStore repository.store) where
  -- Nothing happened: no stream has changed, and nothing was sent.
  abbrev pub IsQuiet : World S B → Result (Unit {0}) × World S B → Type 0
  IsQuiet w p =
      (p.0 ≡ ok tt) × (p.1.bus ≡ w.bus) × ((j : String) → law.view j p.1.store ≡ law.view j w.store)

  module _ (fresh : Uuid) (now : Time) (command : CreateSalesOrder)
      (named : command.base.aggregate_id ≡ command.sales_order_id.value) where
    abbrev home : String
    home = stream uuids repository command.base.aggregate_id

    abbrev new_order : Result Aggregate
    new_order =
        create_sales_order command.sales_order_id command.base.commit_id command.sales_order_number
          command.order_date command.customer_id command.customer_name command.rows

    save_order-known :
        (a : Aggregate) (w : World S B)
        → IsCreated command.sales_order_id.value (ok a)
        → (save_order uuids repository fresh now a w).0 ≡ ok tt
        → 1 ≤ length (law.view home (save_order uuids repository fresh now a w).1.store)
    unfolding save_order
    save_order-known a w (i, some_events) done =
        let (b, saved, rest) = continue-eq_ok (save uuids repository a fresh now w).0 _ _ done in
        let k = stream uuids repository a.id in
        let (_, grown) = view-save uuids repository law k a fresh now w saved in
        let same : k ≡ home = ap (stream uuids repository) (i ∙ sym named) in
        let there : law.view k (save uuids repository a fresh now w).1.store
            ≡ law.view k w.store ++ a.uncommitted =
          rw (eq_refl k) at grown in
        let known : 1 ≤ length (law.view k (save uuids repository a fresh now w).1.store) =
          rw (there, length-append (law.view k w.store) a.uncommitted)
            (omega (arith, some_events)) in
        rw saved (
          subst (λ j. 1 ≤ length (law.view j (save uuids repository a fresh now w).1.store)) same
            known)

    created-known :
        (w : World S B)
        → (create_unless uuids repository fresh now command (err aggregate_not_found) w).0 ≡ ok tt
        → 1
          ≤ length (
              law.view home
                (create_unless uuids repository fresh now command
                  (err aggregate_not_found)
                  w).1.store)
    unfolding create_unless
    created-known w done =
        let (a, e, rest) =
          continue-eq_ok new_order (save_order uuids repository fresh now) w done in
        let made : IsCreated command.sales_order_id.value (ok a) = rw e at (
          create_sales_order-IsCreated command.sales_order_id command.base.commit_id
            command.sales_order_number command.order_date command.customer_id command.customer_name
            command.rows) in
        rw e (save_order-known a w made rest)

    create_unless-known :
        (w : World S B) (r : Result Aggregate)
        → (get_by_id uuids repository command.base.aggregate_id w).0 ≡ r
        → (create_unless uuids repository fresh now command r
            (get_by_id uuids repository command.base.aggregate_id w).1).0
          ≡ ok tt
        → 1
          ≤ length (
              law.view home
                (create_unless uuids repository fresh now command r
                  (get_by_id uuids repository command.base.aggregate_id w).1).1.store)
    unfolding create_unless
    create_unless-known w (ok a) e done =
        rw (view-get_by_id uuids repository law home command.base.aggregate_id w)
          (length-get_by_id uuids repository law command.base.aggregate_id w e)
    create_unless-known w (err aggregate_not_found) e done = created-known _ done
    create_unless-known w (err (invalid _)) e done = cc
    create_unless-known w (err not_found) e done = cc
    create_unless-known w (err concurrency) e done = cc
    create_unless-known w (err (failed _)) e done = cc
    create_unless-known w (err panicked) e done = cc

  handle_create-IsQuiet :
      (fresh : Uuid) (now : Time) (command : CreateSalesOrder) (w : World S B)
      → IsReadable repository.store
      → 1 ≤ length (law.view (stream uuids repository command.base.aggregate_id) w.store)
      → IsQuiet w (handle_create uuids repository fresh now command w)
  unfolding handle_create create_unless
  handle_create-IsQuiet fresh now command w readable le =
      let id = command.base.aggregate_id in
      let (a, found) = get_by_id-found uuids repository law id w readable le in
      rw found
        (refl, get_by_id-bus uuids repository id w, λ j. view-get_by_id uuids repository law j id w)

  -- A command to create an order that was handled once, without an error, does nothing when it is
  -- delivered again, whatever ids and times the second handling draws: no stream changes and nothing
  -- is sent. The store reads without errors, and the command is addressed to the id of its order.
  pub handle_create-again :
      IsReadable repository.store
      → (fresh fresh' : Uuid) (now now' : Time) (command : CreateSalesOrder) (w : World S B)
      → command.base.aggregate_id ≡ command.sales_order_id.value
      → (handle_create uuids repository fresh now command w).0 ≡ ok tt
      → IsQuiet (handle_create uuids repository fresh now command w).1 (
          handle_create uuids repository fresh' now' command
            (handle_create uuids repository fresh now command w).1)
  unfolding handle_create
  handle_create-again readable fresh fresh' now now' command w named done =
      handle_create-IsQuiet fresh' now' command _ readable
        (create_unless-known fresh now command named w _ refl done)
