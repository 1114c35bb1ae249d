-- ===== src/Warehouses/AllocationSaga.antt =====
-- internal/warehouses/domain/order_allocation_saga.go: the event-sourced allocation of one order.
pub mod Rows
pub mod Invariant
pub mod Weight
pub mod Progress
pub mod Redelivery
pub mod Moves
pub mod Settlement
pub mod Timeout
pub mod Sourced
use cj_beer_company.Prelude.{
  ℕ, String, Bool, true, false, not, ◌&&◌, ◌||◌, Option, none, some, List, [], ◌∷◌, map, ◌==◌,
  str_eq, if◌then◌else◌,
}
use cj_beer_company.CustomTypes.{Uuid, UuidCodec}
use cj_beer_company.Outcome.{Result, ok, err, panicked}
use cj_beer_company.Muflone.Aggregate.{Router, AggregateRoot, new_aggregate, raise_event}
use cj_beer_company.Warehouses.Events.{
  WarehouseEvent, SagaRowData, allocation_started, step_succeeded, step_failed, step_compensated,
  allocation_completed, allocation_rejected, new_order_allocation_started,
  new_allocation_step_succeeded, new_allocation_step_failed, new_allocation_step_compensated,
  new_order_allocation_completed, new_order_allocation_rejected,
}

abbrev pub saga_stream_name : String
saga_stream_name = "OrderAllocationSaga"

-- `unstarted` is the zero value, the empty string, of a saga that no event has reached.
pub data SagaStatus : Type 0 where
  unstarted running compensating completed rejected : SagaStatus

pub data RowState : Type 0 where
  pending allocated failed compensated : RowState

abbrev pub is_running : SagaStatus → Bool
is_running running = true
is_running _ = false

abbrev pub is_compensating : SagaStatus → Bool
is_compensating compensating = true
is_compensating _ = false

-- row.state == state
abbrev pub same_state : RowState → RowState → Bool
same_state pending pending = true
same_state allocated allocated = true
same_state failed failed = true
same_state compensated compensated = true
same_state _ _ = false

pub record SagaRow : Type 0 where
  pub row : SagaRowData
  pub state : RowState

pub record OrderAllocationSaga : Type 0 where
  pub sales_order_id : String
  pub rows : List SagaRow
  pub status : SagaStatus
  pub reason : String

abbrev pub Aggregate : Type 0
Aggregate = AggregateRoot OrderAllocationSaga WarehouseEvent

unfoldable pub row_in_state : String → RowState → List SagaRow → Bool
row_in_state beer_id state [] = false
row_in_state beer_id state (r ∷ rs) =
    (str_eq r.row.beer_id beer_id && same_state r.state state) || row_in_state beer_id state rs

unfoldable pub all_rows_in : RowState → List SagaRow → Bool
all_rows_in state [] = true
all_rows_in state (r ∷ rs) = same_state r.state state && all_rows_in state rs

-- It changes every row of the beer.
unfoldable pub set_row_state : String → RowState → List SagaRow → List SagaRow
set_row_state beer_id state [] = []
set_row_state beer_id state (r ∷ rs) =
    (if str_eq r.row.beer_id beer_id then record r { state = state } else r)
    ∷ set_row_state beer_id state rs

unfoldable pub rows_in : RowState → List SagaRow → List SagaRowData
rows_in state [] = []
rows_in state (r ∷ rs) =
    let rest = rows_in state rs in if same_state r.state state then r.row ∷ rest else rest

unfoldable pub first_pending : List SagaRow → Option SagaRowData
first_pending [] = none
first_pending (r ∷ rs) =
    let rest = first_pending rs in if same_state r.state pending then some r.row else rest

-- `none` is the zero row with `false`.
unfoldable pub next_pending_row : OrderAllocationSaga → Option SagaRowData
unfolding first_pending
next_pending_row s = if is_running s.status then first_pending s.rows else none

unfoldable pub rows_to_compensate : OrderAllocationSaga → List SagaRowData
unfolding rows_in
rows_to_compensate s = if is_compensating s.status then rows_in allocated s.rows else []

unfoldable pub route : WarehouseEvent → Uuid → OrderAllocationSaga → Uuid × OrderAllocationSaga
unfolding set_row_state
route (allocation_started e) id s = (
  e.base.aggregate_id,
  record s {
    sales_order_id = e.sales_order_id;
    status = running;
    rows = map (λ r. record { row = r; state = pending }) e.rows;
  },
)
route (step_succeeded e) id s = (id, record s { rows = set_row_state e.beer_id allocated s.rows })
route (step_failed e) id s = (
  id,
  record s {
    rows = set_row_state e.beer_id failed s.rows;
    status = compensating;
    reason = e.reason;
  },
)
route (step_compensated e) id s =
    (id, record s { rows = set_row_state e.beer_id compensated s.rows })
route (allocation_completed e) id s = (id, record s { status = completed })
route (allocation_rejected e) id s = (id, record s { status = rejected; reason = e.reason })
route _ id s = (id, s)

abbrev pub empty : OrderAllocationSaga
empty = record { sales_order_id = ""; rows = []; status = unstarted; reason = "" }

abbrev pub router : Router OrderAllocationSaga WarehouseEvent
router = record { initial = empty; route = route }

unfoldable pub new_order_allocation_saga : Aggregate
unfolding new_aggregate
new_order_allocation_saga = new_aggregate router

abbrev pub is_nil {ℓ} : {A : Type ℓ} → List A → Bool
is_nil [] = true
is_nil (x ∷ xs) = false

module _ (uuids : UuidCodec) where
  unfoldable pub start_order_allocation : Uuid → Uuid → List SagaRowData → Aggregate
  unfolding new_order_allocation_saga raise_event route
  start_order_allocation sales_order_id commit_id rows =
      let started =
        raise_event router (new_order_allocation_started uuids sales_order_id commit_id rows)
          new_order_allocation_saga in
      if is_nil rows
      then raise_event router (new_order_allocation_completed uuids sales_order_id commit_id)
          started
      else started

  -- uuid.MustParse panics on a text that is no id.
  unfoldable pub must_parse : String → Result Uuid
  must_parse s = elim (uuids.parse s) [ none ↦ err panicked | some id ↦ ok id ]

  after_success : Uuid → String → Aggregate → Result Uuid → Result (Aggregate × Bool)
  unfolding raise_event route all_rows_in
  after_success commit_id beer_id s (err e) = err e
  after_success commit_id beer_id s (ok order_id) =
      let stepped =
        raise_event router (new_allocation_step_succeeded uuids order_id commit_id beer_id) s in
      ok (
        if all_rows_in allocated stepped.state.rows
            then raise_event router (new_order_allocation_completed uuids order_id commit_id)
                stepped
            else stepped,
        true,
      )

  unfoldable pub record_allocation_succeeded : Uuid → String → Aggregate → Result (Aggregate × Bool)
  unfolding after_success must_parse row_in_state
  record_allocation_succeeded commit_id beer_id s =
      if not (is_running s.state.status) || not (row_in_state beer_id pending s.state.rows)
      then ok (s, false)
      else after_success commit_id beer_id s (must_parse s.state.sales_order_id)

  pub after_failure : Uuid → String → String → Aggregate → Result Uuid → Result (Aggregate × Bool)
  unfolding raise_event route rows_to_compensate
  after_failure commit_id beer_id reason s (err e) = err e
  after_failure commit_id beer_id reason s (ok order_id) =
      let stepped =
        raise_event router (new_allocation_step_failed uuids order_id commit_id beer_id reason) s in
      ok (
        if is_nil (rows_to_compensate stepped.state)
            then raise_event router (new_order_allocation_rejected uuids order_id commit_id reason)
                stepped
            else stepped,
        true,
      )

  unfoldable pub record_quantity_not_found :
      Uuid → String → String → Aggregate → Result (Aggregate × Bool)
  unfolding after_failure must_parse row_in_state
  record_quantity_not_found commit_id beer_id reason s =
      if not (is_running s.state.status) || not (row_in_state beer_id pending s.state.rows)
      then ok (s, false)
      else after_failure commit_id beer_id reason s (must_parse s.state.sales_order_id)

  after_compensation : Uuid → String → Aggregate → Result Uuid → Result (Aggregate × Bool)
  unfolding raise_event route rows_to_compensate
  after_compensation commit_id beer_id s (err e) = err e
  after_compensation commit_id beer_id s (ok order_id) =
      let stepped =
        raise_event router (new_allocation_step_compensated uuids order_id commit_id beer_id) s in
      ok (
        if is_nil (rows_to_compensate stepped.state)
            then raise_event router
                (new_order_allocation_rejected uuids order_id commit_id stepped.state.reason)
                stepped
            else stepped,
        true,
      )

  unfoldable pub record_compensated : Uuid → String → Aggregate → Result (Aggregate × Bool)
  unfolding after_compensation must_parse row_in_state
  record_compensated commit_id beer_id s =
      if not (is_compensating s.state.status) || not (row_in_state beer_id allocated s.state.rows)
      then ok (s, false)
      else after_compensation commit_id beer_id s (must_parse s.state.sales_order_id)
