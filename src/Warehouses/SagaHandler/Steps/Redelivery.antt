-- ===== src/Warehouses/SagaHandler/Steps/Redelivery.antt =====
-- A trigger of the saga that is delivered again.
use cj_beer_company.Prelude.{
  ◌≤◌, String, ◌≡◌, refl, Option, none, some, List, [], ◌∷◌, ◌++◌, arith, length, length-append,
  eq_refl, Bool-cases, inl, inr,
}
use cj_beer_company.CustomTypes.{Uuid, UuidCodec, Time}
use cj_beer_company.Outcome.{
  invalid, not_found, aggregate_not_found, concurrency, failed, panicked, Result, ok, err, World,
  continue-eq_ok, Result-cases,
}
use cj_beer_company.Muflone.Registry.{Payload}
use cj_beer_company.Muflone.Repository.{stream, get_by_id, save}
use cj_beer_company.Muflone.Repository.Contract.{IsEventStore}
use cj_beer_company.Muflone.Repository.RoundTrip.{view-save, view-get_by_id}
use cj_beer_company.Muflone.Repository.Known.{
  IsReadable, get_by_id-bus, length-get_by_id, get_by_id-found,
}
use cj_beer_company.Warehouses.AllocationSaga.{Aggregate, next_pending_row, start_order_allocation}
use cj_beer_company.Warehouses.AllocationSaga.Invariant.{start_order_allocation-IsConsistent}
use cj_beer_company.Warehouses.SagaHandler.{
  SagaHandler, SalesOrderCreatedMessage, is_completed, row_or_zero, beer_of, publish_outcome,
  send_next_allocation,
}
use cj_beer_company.Warehouses.SagaHandler.Steps.{
  started, start_unless, after_start, on_sales_order_created,
}
use cj_beer_company.Warehouses.Events.{SagaRowData}

start-uncommitted :
    (uuids : UuidCodec) (order c : Uuid) (rows : List SagaRowData)
    → 1 ≤ length (start_order_allocation uuids order c rows).uncommitted
unfolding start_order_allocation
start-uncommitted uuids order c [] = omega arith
start-uncommitted uuids order c (d ∷ ds) = omega arith

module _ {S B : Type 0} (uuids : UuidCodec) (h : SagaHandler S B) where
  send_next_allocation-store :
      (saga : Aggregate) (c : Uuid) (w : World S B)
      → (send_next_allocation uuids h saga c w).1.store ≡ w.store
  unfolding send_next_allocation
  send_next_allocation-store saga c w =
      let row = row_or_zero uuids h (next_pending_row saga.state) in
      elim (Result-cases (beer_of uuids h (uuids.parse row.beer_id))) [
        | inl (id, e) ↦ rw e refl
        | inr (x, e) ↦ rw e refl
      ]

  -- What follows the Save of a started saga leaves the event store alone.
  pub after_start-store :
      (fresh : Uuid) (now : Time) (c : Uuid) (saga : Aggregate) (w : World S B)
      → (after_start uuids h fresh now c saga w).1.store ≡ w.store
  unfolding after_start publish_outcome
  after_start-store fresh now c saga w = elim (Bool-cases (is_completed saga.state.status)) [
    | inl done ↦ rw done refl
    | inr more ↦ rw more (send_next_allocation-store saga c w)
  ]

  module _ (law : IsEventStore h.repository.store) where
    -- Nothing happened: no stream has changed, and nothing was sent.
    abbrev pub IsIdle : World S B → Result (Unit {0}) × World S B → Type 0
    IsIdle w p =
        (p.0 ≡ ok tt)
        × (p.1.bus ≡ w.bus)
        × ((j : String) → law.view j p.1.store ≡ law.view j w.store)

    module _ (fresh : Uuid) (now : Time) (m : SalesOrderCreatedMessage) (order : Uuid) where
      abbrev new_saga : Aggregate
      new_saga = start_order_allocation uuids order m.commit_id m.rows

      -- The saga that a successful call has saved is in the stream of the order.
      saved-known :
          (w : World S B)
          → (start_unless uuids h fresh now m order (err aggregate_not_found) w).0 ≡ ok tt
          → 1
            ≤ length (
                law.view
                  (stream uuids h.repository order)
                  (start_unless uuids h fresh now m order (err aggregate_not_found) w).1.store)
      unfolding start_unless
      saved-known w done =
          let k = stream uuids h.repository order in
          let (a, saved, rest) =
            continue-eq_ok (save uuids h.repository new_saga fresh now w).0 _ _ done in
          let (_, grown) = view-save uuids h.repository law k new_saga fresh now w saved in
          let named : new_saga.id ≡ order =
            (start_order_allocation-IsConsistent uuids order m.commit_id m.rows).1 in
          let there : law.view k (save uuids h.repository new_saga fresh now w).1.store
              ≡ law.view k w.store ++ new_saga.uncommitted =
            rw (named, eq_refl k) at grown in
          rw
            (
              saved,
              after_start-store fresh now m.commit_id a _,
              there,
              length-append (law.view k w.store) new_saga.uncommitted,
            )
            (omega (arith, start-uncommitted uuids order m.commit_id m.rows))

      start_unless-known :
          (w : World S B) (r : Result Aggregate)
          → (get_by_id uuids h.repository order w).0 ≡ r
          → (start_unless uuids h fresh now m order r (get_by_id uuids h.repository order w).1).0
            ≡ ok tt
          → 1
            ≤ length (
                law.view
                  (stream uuids h.repository order)
                  (start_unless uuids h fresh now m order r
                    (get_by_id uuids h.repository order w).1).1.store)
      unfolding start_unless
      start_unless-known w (ok a) e done =
          rw (view-get_by_id uuids h.repository law (stream uuids h.repository order) order w)
            (length-get_by_id uuids h.repository law order w e)
      start_unless-known w (err aggregate_not_found) e done = saved-known _ done
      start_unless-known w (err (invalid _)) e done = cc
      start_unless-known w (err not_found) e done = cc
      start_unless-known w (err concurrency) e done = cc
      start_unless-known w (err (failed _)) e done = cc
      start_unless-known w (err panicked) e done = cc

    module _ (readable : IsReadable h.repository.store) (fresh : Uuid) (now : Time) where
      started-IsIdle :
          (m : SalesOrderCreatedMessage) (order : Uuid) (w : World S B)
          → 1 ≤ length (law.view (stream uuids h.repository order) w.store)
          → IsIdle w (started uuids h fresh now m (some order) w)
      unfolding started start_unless
      started-IsIdle m order w le =
          let (a, found) = get_by_id-found uuids h.repository law order w readable le in
          rw found (
            refl,
            get_by_id-bus uuids h.repository order w,
            λ j. view-get_by_id uuids h.repository law j order w,
          )

      started-again :
          (fresh' : Uuid) (now' : Time) (m : SalesOrderCreatedMessage) (parsed : Option Uuid)
          (w : World S B)
          → (started uuids h fresh' now' m parsed w).0 ≡ ok tt
          → IsIdle
              (started uuids h fresh' now' m parsed w).1
              (started uuids h fresh now m parsed (started uuids h fresh' now' m parsed w).1)
      unfolding started
      started-again fresh' now' m none w done = (refl, refl, λ j. refl)
      started-again fresh' now' m (some order) w done =
          started-IsIdle m order _ (start_unless-known fresh' now' m order w _ refl done)

    -- The trigger of a saga that was handled once, without an error, does nothing when it is
    -- delivered again, whatever ids and times the second handling draws: no stream changes and
    -- nothing is sent. The store reads without errors.
    pub on_sales_order_created-again :
        IsReadable h.repository.store
        → (fresh fresh' : Uuid) (now now' : Time) (payload : Payload) (w : World S B)
        → (on_sales_order_created uuids h fresh now payload w).0 ≡ ok tt
        → IsIdle (on_sales_order_created uuids h fresh now payload w).1 (
            on_sales_order_created uuids h fresh' now' payload
              (on_sales_order_created uuids h fresh now payload w).1)
    unfolding on_sales_order_created
    on_sales_order_created-again readable fresh fresh' now now' payload w done =
        let (m, parsed, rest) = continue-eq_ok (h.unmarshal payload) _ w done in
        rw parsed
          (started-again readable fresh' now' fresh now m (uuids.parse m.sales_order_id) w rest)
