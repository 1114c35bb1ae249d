-- ===== src/Warehouses/AllocationSaga/Timeout.antt =====
-- A step that failed, as the watchdog makes it fail, is not given back when it succeeds late.
use cj_beer_company.Prelude.{
  String, ◌≡◌, refl, Bool, true, false, List, [], ◌∷◌, All, arith, Bool-cases, inl, inr, str_eq,
}
use cj_beer_company.CustomTypes.{Uuid, UuidCodec}
use cj_beer_company.Outcome.{Result, ok, err}
use cj_beer_company.Warehouses.Events.{SagaRowData}
use cj_beer_company.Warehouses.AllocationSaga.{
  RowState, pending, allocated, failed, SagaRow, Aggregate, is_running, is_compensating,
  row_in_state, set_row_state, rows_in, is_nil, must_parse, record_allocation_succeeded,
  record_quantity_not_found, after_failure, rows_to_compensate,
}
use cj_beer_company.Warehouses.AllocationSaga.Rows.{row_in_state-set_ne}
use cj_beer_company.Warehouses.AllocationSaga.Weight.{Changed}
use cj_beer_company.Warehouses.AllocationSaga.Redelivery.{after_failure-guard}

abbrev pub IsOther : String → SagaRowData → Type 0
IsOther b d = str_eq d.beer_id b ≡ false

rows_in-IsOther :
    (b : String) (state : RowState) (rs : List SagaRow)
    → row_in_state b state rs ≡ false
    → All (IsOther b) (rows_in state rs)
unfolding row_in_state rows_in
rows_in-IsOther b state [] h = tt
rows_in-IsOther b state (r ∷ rs) h = ground (arith, rows_in-IsOther b state rs)

module _ (uuids : UuidCodec) (c d : Uuid) (b : String) (s : Aggregate) where
  abbrev IsDeaf : Aggregate → Type 0
  IsDeaf t =
      (record_allocation_succeeded uuids d b t ≡ ok (t, false))
      × All (IsOther b) (rows_to_compensate t.state)

  after_failure-absent :
      (reason : String) (r : Result Uuid)
      → Changed
          (λ t. row_in_state b allocated t.state.rows ≡ false)
          (after_failure uuids c b reason s r)
  unfolding after_failure
  after_failure-absent reason (err e) = tt
  after_failure-absent reason (ok id) =
      let absent = row_in_state-set_ne b failed allocated s.state.rows refl in
      elim (Bool-cases (is_nil (rows_in allocated (set_row_state b failed s.state.rows)))) [
        | inl gone ↦ rw gone (λ _. absent)
        | inr left ↦ rw left (λ _. absent)
      ]

  IsDeaf-of :
      (r : Result (Aggregate × Bool))
      → Changed (λ t. is_running t.state.status ≡ false) r
      → Changed (λ t. row_in_state b allocated t.state.rows ≡ false) r
      → Changed IsDeaf r
  unfolding record_allocation_succeeded rows_to_compensate
  IsDeaf-of (err e) stopped absent = tt
  IsDeaf-of (ok (t, moved)) stopped absent = λ k. (
    rw (stopped k) refl,
    elim (Bool-cases (is_compensating t.state.status)) [
      | inl undoing ↦ rw undoing (rows_in-IsOther b allocated t.state.rows (absent k))
      | inr settled ↦ rw settled tt
    ],
  )

  record_quantity_not_found-IsDeaf :
      (reason : String) → Changed IsDeaf (record_quantity_not_found uuids c b reason s)
  unfolding record_quantity_not_found
  record_quantity_not_found-IsDeaf reason = elim (Bool-cases (is_running s.state.status)) [
    | inl runs ↦ elim (Bool-cases (row_in_state b pending s.state.rows)) [
      | inl there ↦
          rw (runs, there)
            (IsDeaf-of (after_failure uuids c b reason s (must_parse uuids s.state.sales_order_id))
              (after_failure-guard uuids c b s reason (must_parse uuids s.state.sales_order_id))
              (after_failure-absent reason (must_parse uuids s.state.sales_order_id)))
      | inr absent ↦ rw (runs, absent) (λ k. cc)
    ]
    | inr stopped ↦ rw stopped (λ k. cc)
  ]

-- Where a failed or timed out step of the beer has changed the saga, a success of that step that
-- arrives late changes nothing, and no row of the beer is among those to give back.
pub late_success-ignored :
    (uuids : UuidCodec) (c d : Uuid) (b reason : String) (s t : Aggregate)
    → record_quantity_not_found uuids c b reason s ≡ ok (t, true)
    → (record_allocation_succeeded uuids d b t ≡ ok (t, false))
      × All (IsOther b) (rows_to_compensate t.state)
late_success-ignored uuids c d b reason s t h =
    (rw h at (record_quantity_not_found-IsDeaf uuids c d b s reason)) refl
