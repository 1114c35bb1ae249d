-- ===== src/Warehouses/SagaHandler/Steps.antt =====
-- internal/warehouses/sagas/order_allocation_saga_handler.go: what the saga does on each message.
pub mod Redelivery
pub mod Told
pub mod Answers
use cj_beer_company.Prelude.{
  String, Bool, true, false, not, Option, none, some, List, [], ◌∷◌, if◌then◌else◌,
}
use cj_beer_company.Prelude.Text.{is_empty}
use cj_beer_company.CustomTypes.{Uuid, UuidCodec, Time}
use cj_beer_company.Outcome.{
  Result, ok, err, aggregate_not_found, Exec, World, pure, raise, lift, continue, ◌>>=◌, ◌>>◌,
}
use cj_beer_company.Muflone.Registry.{Payload}
use cj_beer_company.Muflone.Repository.{get_by_id, save}
use cj_beer_company.Warehouses.Events.{
  BeerAvailabilityUpdated, QuantityNotFound, AvailabilityCompensated,
}
use cj_beer_company.Warehouses.AllocationSaga.{
  Aggregate, start_order_allocation, record_allocation_succeeded, record_quantity_not_found,
  record_compensated,
}
use cj_beer_company.Warehouses.SagaHandler.{
  SagaHandler, SalesOrderCreatedMessage, is_completed, is_rejected, quantity_text, publish_outcome,
  send_next_allocation, send_compensations,
}
use Prim.Native.String.{◌++◌ as ◌<>◌}

module _ {S B : Type 0} (uuids : UuidCodec) (h : SagaHandler S B) where
  -- `nil, false, nil` is `none`.
  loaded : Result Aggregate → Exec (World S B) (Option Aggregate)
  loaded (ok saga) = pure (some saga)
  loaded (err aggregate_not_found) = pure none
  loaded (err e) = raise e

  pub load_at : Option Uuid → Exec (World S B) (Option Aggregate)
  unfolding loaded get_by_id
  load_at none = pure none
  load_at (some order) =
      λ w. let (found, w') = get_by_id uuids h.repository order w in loaded found w'

  unfoldable pub load : String → Exec (World S B) (Option Aggregate)
  unfolding load_at is_empty
  load sales_order_id =
      if is_empty sales_order_id then pure none else load_at (uuids.parse sales_order_id)

  -- `fresh` is the id that uuid.New returns for the Save, `now` the reading of the clock.
  module _ (fresh : Uuid) (now : Time) where
    -- What follows a record on the aggregate: nothing where it reports no change.
    saved_then :
        (Aggregate → Exec (World S B) Unit) → Result (Aggregate × Bool) → Exec (World S B) Unit
    unfolding save
    saved_then next (err e) = raise e
    saved_then next (ok (saga, moved)) =
        if not moved then pure tt else (save uuids h.repository saga fresh now >>= next)

    pub step_of :
        (Aggregate → Result (Aggregate × Bool))
        → (Aggregate → Exec (World S B) Unit)
        → Option Aggregate
        → Exec (World S B) Unit
    unfolding saved_then
    step_of observe next none = pure tt
    step_of observe next (some saga) = saved_then next (observe saga)

    pub after_start : Uuid → Aggregate → Exec (World S B) Unit
    unfolding publish_outcome send_next_allocation
    after_start commit_id saga =
        if is_completed saga.state.status
        then publish_outcome uuids h saga commit_id
        else send_next_allocation uuids h saga commit_id

    pub after_refusal : Uuid → Aggregate → Exec (World S B) Unit
    unfolding publish_outcome send_compensations
    after_refusal commit_id saga =
        if is_rejected saga.state.status
        then publish_outcome uuids h saga commit_id
        else send_compensations uuids h saga commit_id

    pub after_return : Uuid → Aggregate → Exec (World S B) Unit
    unfolding publish_outcome
    after_return commit_id saga =
        if is_rejected saga.state.status then publish_outcome uuids h saga commit_id else pure tt

    -- An order that has a saga already is left alone.
    start_unless : SalesOrderCreatedMessage → Uuid → Result Aggregate → Exec (World S B) Unit
    unfolding start_order_allocation save after_start
    start_unless message order (ok saga) = pure tt
    start_unless message order (err aggregate_not_found) =
        save uuids h.repository (start_order_allocation uuids order message.commit_id message.rows)
          fresh now
        >>= after_start message.commit_id
    start_unless message order (err e) = raise e

    started : SalesOrderCreatedMessage → Option Uuid → Exec (World S B) Unit
    unfolding start_unless get_by_id
    started message none = pure tt
    started message (some order) = λ w.
        let (found, w') = get_by_id uuids h.repository order w in
        start_unless message order found w'

    unfoldable pub on_sales_order_created : Payload → Exec (World S B) Unit
    unfolding started
    on_sales_order_created payload = do
      message ← lift (h.unmarshal payload)
      started message (uuids.parse message.sales_order_id)

    unfoldable pub on_beer_availability_updated : BeerAvailabilityUpdated → Exec (World S B) Unit
    unfolding load step_of after_start record_allocation_succeeded
    on_beer_availability_updated event = do
      saga ← load event.sales_order_id
      step_of
          (record_allocation_succeeded uuids event.base.commit_id
            (uuids.to_string event.beer_id.value))
          (after_start event.base.commit_id) saga

    unfoldable pub on_quantity_not_found : QuantityNotFound → Exec (World S B) Unit
    unfolding load step_of after_refusal record_quantity_not_found quantity_text
    on_quantity_not_found event =
        let reason =
          "beer "
          <> (uuids.to_string event.beer_id.value
              <> (": requested "
                  <> (quantity_text uuids h event.requested
                      <> (", available " <> quantity_text uuids h event.available)))) in
        do
          saga ← load event.sales_order_id
          step_of
              (record_quantity_not_found uuids event.base.commit_id
                (uuids.to_string event.beer_id.value) reason)
              (after_refusal event.base.commit_id) saga

    unfoldable pub on_availability_compensated : AvailabilityCompensated → Exec (World S B) Unit
    unfolding load step_of after_return record_compensated
    on_availability_compensated event = do
      saga ← load event.sales_order_id
      step_of (record_compensated uuids event.base.commit_id (uuids.to_string event.beer_id.value))
          (after_return event.base.commit_id) saga
