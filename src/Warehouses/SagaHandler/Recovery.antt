-- ===== src/Warehouses/SagaHandler/Recovery.antt =====
-- internal/warehouses/sagas/order_allocation_saga_handler.go: resuming sagas after a restart, and the
-- watchdog over their steps.
use cj_beer_company.Prelude.{
  String, not, ◌||◌, Option, none, some, List, [], ◌∷◌, if◌then◌else◌, ltb,
}
use cj_beer_company.Prelude.Text.{trim_prefix}
use cj_beer_company.CustomTypes.{Uuid, UuidCodec, Time}
use cj_beer_company.Outcome.{
  Result, ok, err, panicked, Exec, World, pure, lift, on_store, ◌>>=◌, ◌>>◌,
}
use cj_beer_company.Muflone.EventStore.{StoredEvent}
use cj_beer_company.Muflone.Repository.{stream_id, get_by_id, save}
use cj_beer_company.Warehouses.Events.{WarehouseEvent}
use cj_beer_company.Warehouses.AllocationSaga.{
  Aggregate, saga_stream_name, is_running, is_compensating, next_pending_row, must_parse,
  record_quantity_not_found,
}
use cj_beer_company.Warehouses.SagaHandler.{
  SagaHandler, is_rejected, row_or_zero, publish_outcome, send_next_allocation, send_compensations,
}
use Prim.Native.String.{◌++◌ as ◌<>◌}

module _ {S B : Type 0} (uuids : UuidCodec) (h : SagaHandler S B) where
  keep_in_flight : Aggregate → List Aggregate → List Aggregate
  keep_in_flight saga rest =
      if is_running saga.state.status || is_compensating saga.state.status
      then saga ∷ rest
      else rest

  -- the loop of inFlight; a stream whose name ends in no id is skipped
  load_stream : Option Uuid → Exec (World S B) (List Aggregate) → Exec (World S B) (List Aggregate)
  unfolding keep_in_flight get_by_id
  load_stream none rest = rest
  load_stream (some order) rest = do
    saga ← get_by_id uuids h.repository order
    sagas ← rest
    pure (keep_in_flight saga sagas)

  load_streams : List String → Exec (World S B) (List Aggregate)
  unfolding load_stream
  load_streams [] = pure []
  load_streams (stream ∷ streams) =
      load_stream (uuids.parse (trim_prefix stream (saga_stream_name <> "-")))
        (load_streams streams)

  -- A store that is no StreamLister has no sagas in flight.
  in_flight_of : Option (String → Exec S (List String)) → Exec (World S B) (List Aggregate)
  unfolding load_streams
  in_flight_of none = pure []
  in_flight_of (some list_streams) = on_store (list_streams saga_stream_name) >>= load_streams

  unfoldable pub in_flight : Exec (World S B) (List Aggregate)
  unfolding in_flight_of
  in_flight = in_flight_of h.list_streams

  unfoldable pub drive : Aggregate → Uuid → Exec (World S B) Unit
  unfolding send_compensations send_next_allocation
  drive saga commit_id =
      if is_compensating saga.state.status
      then send_compensations uuids h saga commit_id
      else send_next_allocation uuids h saga commit_id

  -- the loop of ResumeInFlight; `fresh` gives the id that uuid.New returns at each saga
  drive_all : (Aggregate → Uuid) → List Aggregate → Exec (World S B) Unit
  unfolding drive
  drive_all fresh [] = pure tt
  drive_all fresh (saga ∷ sagas) = do drive saga (fresh saga); drive_all fresh sagas

  unfoldable pub resume_in_flight : (Aggregate → Uuid) → Exec (World S B) Unit
  unfolding in_flight drive_all
  resume_in_flight fresh = do sagas ← in_flight; drive_all fresh sagas

  -- stored[len(stored)-1].OccurredAt, which panics on an empty stream
  last_of : List (StoredEvent WarehouseEvent) → Result Time
  last_of [] = err panicked
  last_of (x ∷ []) = ok x.occurred_at
  last_of (x ∷ y ∷ ys) = last_of (y ∷ ys)

  unfoldable pub last_activity_of : Aggregate → Exec (World S B) Time
  unfolding last_of must_parse stream_id
  last_activity_of saga = do
    order ← lift (must_parse uuids saga.state.sales_order_id)
    stored ← on_store (h.store.read_stream (stream_id saga_stream_name (uuids.to_string order)))
    lift (last_of stored)

  -- `fresh_commit` and `fresh_save` give the ids that uuid.New returns at each saga.
  module _ (fresh_commit fresh_save : Aggregate → Uuid) (now cutoff : Time) where
    settle_timed_out : Uuid → Aggregate → Exec (World S B) Unit
    unfolding publish_outcome send_compensations
    settle_timed_out commit_id saga =
        if is_rejected saga.state.status
        then publish_outcome uuids h saga commit_id
        else send_compensations uuids h saga commit_id

    time_out : Aggregate → Exec (World S B) Unit
    unfolding settle_timed_out record_quantity_not_found save row_or_zero next_pending_row
    time_out saga =
        let commit_id = fresh_commit saga in
        let row = row_or_zero uuids h (next_pending_row saga.state) in
        do
          (failed, _) ← lift (
              record_quantity_not_found uuids commit_id row.beer_id "allocation step timed out"
                saga)
          saved ← save uuids h.repository failed (fresh_save saga) now
          settle_timed_out commit_id saved

    check_saga : Aggregate → Time → Exec (World S B) Unit
    unfolding time_out send_compensations
    check_saga saga last_activity =
        if not (ltb last_activity cutoff)
        then pure tt
        else if is_compensating saga.state.status
        then send_compensations uuids h saga (fresh_commit saga)
        else time_out saga

    -- the loop of TimeoutInFlight
    check_all : List Aggregate → Exec (World S B) Unit
    unfolding check_saga last_activity_of
    check_all [] = pure tt
    check_all (saga ∷ sagas) = do
      last_activity ← last_activity_of saga
      check_saga saga last_activity
      check_all sagas

    unfoldable pub timeout_in_flight : Exec (World S B) Unit
    unfolding in_flight check_all
    timeout_in_flight = do sagas ← in_flight; check_all sagas
