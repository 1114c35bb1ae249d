-- ===== src/Warehouses/AllocationSaga/Sourced.antt =====
-- A saga that is told something stays what its events say.
use cj_beer_company.Prelude.{String, Bool, true, false, not, ◌||◌, List, if◌then◌else◌}
use cj_beer_company.CustomTypes.{Uuid, UuidCodec}
use cj_beer_company.Outcome.{Result, ok, err}
use cj_beer_company.Muflone.Aggregate.{raise_event}
use cj_beer_company.Muflone.Aggregate.Replay.{IsSourced, raise_event-IsSourced}
use cj_beer_company.Warehouses.Events.{
  WarehouseEvent, new_allocation_step_succeeded, new_allocation_step_failed,
  new_allocation_step_compensated, new_order_allocation_completed, new_order_allocation_rejected,
}
use cj_beer_company.Warehouses.AllocationSaga.{
  Aggregate, router, is_running, is_compensating, pending, allocated, row_in_state, all_rows_in,
  is_nil, rows_to_compensate, must_parse, record_allocation_succeeded, record_quantity_not_found,
  record_compensated, after_success, after_failure, after_compensation,
}
use cj_beer_company.Warehouses.AllocationSaga.Invariant.{
  Observation, step_succeeded, step_failed, step_undone, observe,
}

-- What holds of the aggregate of an answer.
abbrev pub Left : (Aggregate → Type 0) → Result (Aggregate × Bool) → Type 0
Left P (ok (t, moved)) = P t
Left P (err e) = Unit {0}

-- A record that may end the saga raises a second event where it does.
raised-IsSourced :
    (history : List WarehouseEvent) (s : Aggregate) (step last : WarehouseEvent) (x : Bool)
    → IsSourced router history s
    → let stepped = raise_event router step s in
      Left
        (IsSourced router history)
        (ok (if x then raise_event router last stepped else stepped, true))
raised-IsSourced history s step last true h =
    raise_event-IsSourced router history last _ (raise_event-IsSourced router history step s h)
raised-IsSourced history s step last false h = raise_event-IsSourced router history step s h

Left-guard :
    (P : Aggregate → Type 0) (x : Bool) {s : Aggregate} (r : Result (Aggregate × Bool))
    → P s
    → Left P r
    → Left P (if x then ok (s, false) else r)
Left-guard P true r h k = h
Left-guard P false r h k = k

module _ (uuids : UuidCodec) (c : Uuid) (s : Aggregate) (history : List WarehouseEvent) where
  after_success-IsSourced :
      (b : String) (r : Result Uuid)
      → IsSourced router history s
      → Left (IsSourced router history) (after_success uuids c b s r)
  unfolding after_success
  after_success-IsSourced b (err e) h = tt
  after_success-IsSourced b (ok id) h =
      let step = new_allocation_step_succeeded uuids id c b in
      let last = new_order_allocation_completed uuids id c in
      raised-IsSourced history s step last
        (all_rows_in allocated (raise_event router step s).state.rows) h

  after_failure-IsSourced :
      (b reason : String) (r : Result Uuid)
      → IsSourced router history s
      → Left (IsSourced router history) (after_failure uuids c b reason s r)
  unfolding after_failure
  after_failure-IsSourced b reason (err e) h = tt
  after_failure-IsSourced b reason (ok id) h =
      let step = new_allocation_step_failed uuids id c b reason in
      let last = new_order_allocation_rejected uuids id c reason in
      raised-IsSourced history s step last
        (is_nil (rows_to_compensate (raise_event router step s).state)) h

  after_compensation-IsSourced :
      (b : String) (r : Result Uuid)
      → IsSourced router history s
      → Left (IsSourced router history) (after_compensation uuids c b s r)
  unfolding after_compensation
  after_compensation-IsSourced b (err e) h = tt
  after_compensation-IsSourced b (ok id) h =
      let step = new_allocation_step_compensated uuids id c b in
      let last =
        new_order_allocation_rejected uuids id c (raise_event router step s).state.reason in
      raised-IsSourced history s step last
        (is_nil (rows_to_compensate (raise_event router step s).state)) h

  -- Whatever a saga is told that its stored history and its uncommitted events explain, the saga
  -- of the answer, where there is one, is explained by that history and its own uncommitted
  -- events, in the version as in the state.
  pub observe-IsSourced :
      (o : Observation)
      → IsSourced router history s
      → Left (IsSourced router history) (observe uuids c o s)
  unfolding record_allocation_succeeded record_quantity_not_found record_compensated
  observe-IsSourced (step_succeeded b) h =
      let id = must_parse uuids s.state.sales_order_id in
      Left-guard (IsSourced router history)
        (not (is_running s.state.status) || not (row_in_state b pending s.state.rows))
        (after_success uuids c b s id) h (after_success-IsSourced b id h)
  observe-IsSourced (step_failed b reason) h =
      let id = must_parse uuids s.state.sales_order_id in
      Left-guard (IsSourced router history)
        (not (is_running s.state.status) || not (row_in_state b pending s.state.rows))
        (after_failure uuids c b reason s id) h (after_failure-IsSourced b reason id h)
  observe-IsSourced (step_undone b) h =
      let id = must_parse uuids s.state.sales_order_id in
      Left-guard (IsSourced router history)
        (not (is_compensating s.state.status) || not (row_in_state b allocated s.state.rows))
        (after_compensation uuids c b s id) h (after_compensation-IsSourced b id h)
