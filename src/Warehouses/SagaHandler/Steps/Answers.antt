-- ===== src/Warehouses/SagaHandler/Steps/Answers.antt =====
-- An answer of the warehouse to the saga that is delivered again.
use cj_beer_company.Prelude.{
  String, ◌≡◌, refl, Option, none, some, List, [], ◌∷◌, Bool-cases, inl, inr,
}
use cj_beer_company.Prelude.Text.{is_empty}
use cj_beer_company.CustomTypes.{Uuid, UuidCodec, Time, new_quantity}
use cj_beer_company.Outcome.{
  invalid, not_found, aggregate_not_found, concurrency, failed, panicked, Result, ok, err, Exec,
  World, Result-cases, continue-keeps, on_bus, ◌>>◌, ◌>>=◌,
}
use cj_beer_company.Muflone.Repository.{get_by_id}
use cj_beer_company.Muflone.Repository.Contract.{IsEventStore}
use cj_beer_company.Muflone.Repository.Known.{IsReadable}
use cj_beer_company.Warehouses.Events.{
  SagaRowData, BeerAvailabilityUpdated, QuantityNotFound, AvailabilityCompensated,
}
use cj_beer_company.Muflone.ServiceBus.{send}
use cj_beer_company.Warehouses.Commands.{
  compensate, new_compensate_availability_due_to_failed_allocation,
}
use cj_beer_company.Warehouses.AllocationSaga.{Aggregate, router, rows_to_compensate}
use cj_beer_company.Warehouses.AllocationSaga.Invariant.{
  IsConsistent, Observation, observe, step_succeeded, step_failed, step_undone,
}
use cj_beer_company.Warehouses.SagaHandler.{
  SagaHandler, is_rejected, publish_outcome, send_compensation_of, send_compensations, beer_of,
}
use cj_beer_company.Warehouses.SagaHandler.Steps.{
  load, load_at, loaded, step_of, after_start, after_refusal, after_return,
  on_beer_availability_updated, on_quantity_not_found, on_availability_compensated,
}
use cj_beer_company.Warehouses.SagaHandler.Steps.Redelivery.{IsIdle, after_start-store}
use cj_beer_company.Warehouses.SagaHandler.Steps.Told.{tell-IsIdle, tell-IsTold}

-- The three answers of the warehouse that the saga waits for.
pub data Answer : Type 0 where
  updated : BeerAvailabilityUpdated → Answer
  short : QuantityNotFound → Answer
  returned : AvailabilityCompensated → Answer

abbrev pub order_of : Answer → String
order_of (updated e) = e.sales_order_id
order_of (short e) = e.sales_order_id
order_of (returned e) = e.sales_order_id

-- A message that is sent leaves the event store alone.
then-store :
    {S B : Type 0} (sent : Exec B Unit) (rest : Exec (World S B) Unit) (w : World S B)
    → ((v : World S B) → (rest v).1.store ≡ v.store)
    → ((on_bus sent >> rest) w).1.store ≡ w.store
then-store {S} {B} sent rest w keeps =
    let w' : World S B = record { store = w.store; bus = (sent w.bus).1 } in
    continue-keeps (λ (v : World S B). v.store ≡ w.store) (sent w.bus).0 (λ _. rest) w' refl
      (λ _. keeps w')

module _ {S B : Type 0} (uuids : UuidCodec) (h : SagaHandler S B) where
  send_compensation_of-store :
      (rows : List SagaRowData) (order : String) (c : Uuid) (w : World S B)
      → (send_compensation_of uuids h rows order c w).1.store ≡ w.store
  unfolding send_compensation_of
  send_compensation_of-store [] order c w = refl
  send_compensation_of-store (row ∷ rows) order c w =
      elim (Result-cases (beer_of uuids h (uuids.parse row.beer_id))) [
        | inl (id, e) ↦ rw e (
            let compensation =
              new_compensate_availability_due_to_failed_allocation (record { value = id }) c
                (new_quantity row.quantity row.unit_of_measure) order in
            then-store (send h.bus h.commands (compensate compensation))
              (send_compensation_of uuids h rows order c) w
              (λ v. send_compensation_of-store rows order c v))
        | inr (x, e) ↦ rw e refl
      ]

  after_refusal-store :
      (fresh : Uuid) (now : Time) (c : Uuid) (saga : Aggregate) (w : World S B)
      → (after_refusal uuids h fresh now c saga w).1.store ≡ w.store
  unfolding after_refusal publish_outcome send_compensations
  after_refusal-store fresh now c saga w = elim (Bool-cases (is_rejected saga.state.status)) [
    | inl over ↦ rw over refl
    | inr more ↦
        rw more
          (send_compensation_of-store (rows_to_compensate saga.state) saga.state.sales_order_id c w)
  ]

  after_return-store :
      (fresh : Uuid) (now : Time) (c : Uuid) (saga : Aggregate) (w : World S B)
      → (after_return uuids h fresh now c saga w).1.store ≡ w.store
  unfolding after_return publish_outcome
  after_return-store fresh now c saga w = elim (Bool-cases (is_rejected saga.state.status)) [
    | inl over ↦ rw over refl
    | inr more ↦ rw more refl
  ]

  found_of-loaded :
      (r : Result Aggregate) (w : World S B) {s : Aggregate}
      → (loaded uuids h r w).0 ≡ ok (some s)
      → r ≡ ok s
  unfolding loaded
  found_of-loaded (ok a) w e = cc
  found_of-loaded (err aggregate_not_found) w e = cc
  found_of-loaded (err (invalid _)) w e = cc
  found_of-loaded (err not_found) w e = cc
  found_of-loaded (err concurrency) w e = cc
  found_of-loaded (err (failed _)) w e = cc
  found_of-loaded (err panicked) w e = cc

  none_found : (r : Result (Option Aggregate)) {s : Aggregate} → r ≡ ok none → r ≡ ok (some s) → ⊥
  none_found r e k = cc

  -- What an order that is found is loaded by.
  load-found :
      (order : String) (w : World S B) {s : Aggregate}
      → uuids.parse order ≡ some s.id
      → (load uuids h order w).0 ≡ ok (some s)
      → (load uuids h order ≡ load_at uuids h (some s.id))
        × ((get_by_id uuids h.repository s.id w).0 ≡ ok s)
  unfolding load load_at
  load-found order w {s} parsed found = elim (Bool-cases (is_empty order)) [
    | inl blank ↦ absurd (none_found ((load uuids h order w).0) (rw blank refl) found)
    | inr named ↦ (
      rw (named, parsed) refl,
      found_of-loaded (get_by_id uuids h.repository s.id w).0
          (get_by_id uuids h.repository s.id w).1 (rw (named, parsed) at found),
    )
  ]

  abbrev pub on_answer : Uuid → Time → Answer → Exec (World S B) Unit
  on_answer fresh now (updated e) = on_beer_availability_updated uuids h fresh now e
  on_answer fresh now (short e) = on_quantity_not_found uuids h fresh now e
  on_answer fresh now (returned e) = on_availability_compensated uuids h fresh now e

  module _ (law : IsEventStore h.repository.store) where
    -- Both deliveries load the saga by its id, and tell it the same.
    told_twice :
        h.repository.router ≡ router
        → IsReadable h.repository.store
        → (fresh fresh' : Uuid) (now now' : Time) (c : Uuid) (o : Observation)
          (next next' : Aggregate → Exec (World S B) Unit) (s : Aggregate) (w : World S B)
          (order : String)
        → ((a : Aggregate) (w : World S B) → (next a w).1.store ≡ w.store)
        → uuids.parse order ≡ some s.id
        → (load uuids h order w).0 ≡ ok (some s)
        → IsConsistent uuids s
        → let first =
            (load uuids h order >>= step_of uuids h fresh now (observe uuids c o) next) w in
          first.0 ≡ ok tt
          → IsIdle uuids h law first.1 (
              (load uuids h order >>= step_of uuids h fresh' now' (observe uuids c o) next')
                first.1)
    told_twice routed readable fresh fresh' now now' c o next next' s w order keeps parsed found k
          done =
        let (same, stored) = load-found order w parsed found in
        let (t, told) =
          tell-IsTold uuids h law routed s.id c o fresh now next keeps w s stored k refl
            (rw same at done) in
        rw same (tell-IsIdle uuids h law routed s.id c o readable fresh' now' next' _ t told)

    -- An answer of the warehouse that the stored saga of its order has handled once, without an
    -- error, does nothing when it is delivered again next, whatever ids and times the second
    -- handling draws: no stream changes and nothing is sent. The saga loaded first is consistent and
    -- has the id that the answer names, the store reads without errors, and the repository replays
    -- by the saga's own router.
    pub on_answer-again :
        h.repository.router ≡ router
        → IsReadable h.repository.store
        → (fresh fresh' : Uuid) (now now' : Time) (a : Answer) (s : Aggregate) (w : World S B)
        → uuids.parse (order_of a) ≡ some s.id
        → (load uuids h (order_of a) w).0 ≡ ok (some s)
        → IsConsistent uuids s
        → (on_answer fresh now a w).0 ≡ ok tt
        → IsIdle uuids h law
            (on_answer fresh now a w).1
            (on_answer fresh' now' a (on_answer fresh now a w).1)
    unfolding on_beer_availability_updated on_quantity_not_found on_availability_compensated
    on_answer-again routed readable fresh fresh' now now' (updated e) s w parsed found k done =
        let c = e.base.commit_id in
        told_twice routed readable fresh fresh' now now' c
          (step_succeeded (uuids.to_string e.beer_id.value)) (after_start uuids h fresh now c)
          (after_start uuids h fresh' now' c) s w e.sales_order_id
          (after_start-store uuids h fresh now c) parsed found k done
    on_answer-again routed readable fresh fresh' now now' (short e) s w parsed found k done =
        let c = e.base.commit_id in
        told_twice routed readable fresh fresh' now now' c
          (step_failed (uuids.to_string e.beer_id.value) _) (after_refusal uuids h fresh now c)
          (after_refusal uuids h fresh' now' c) s w e.sales_order_id
          (after_refusal-store fresh now c) parsed found k done
    on_answer-again routed readable fresh fresh' now now' (returned e) s w parsed found k done =
        let c = e.base.commit_id in
        told_twice routed readable fresh fresh' now now' c
          (step_undone (uuids.to_string e.beer_id.value)) (after_return uuids h fresh now c)
          (after_return uuids h fresh' now' c) s w e.sales_order_id (after_return-store fresh now c)
          parsed found k done
