-- ===== src/Warehouses/AllocationSaga/Moves.antt =====
-- A step that a saga waits for changes it when it is answered.
use cj_beer_company.Prelude.{
  String, ◌≡◌, refl, Bool, true, List, [], ◌∷◌, arith, Bool-cases, inl, inr, Option, none, some,
  eq_refl,
}
use cj_beer_company.CustomTypes.{Uuid, UuidCodec}
use cj_beer_company.Outcome.{Result, ok, err}
use cj_beer_company.Warehouses.Events.{SagaRowData}
use cj_beer_company.Warehouses.AllocationSaga.{
  running, compensating, RowState, pending, allocated, same_state, SagaRow, Aggregate, row_in_state,
  rows_in, record_allocation_succeeded, record_quantity_not_found, record_compensated,
  after_success, after_failure, after_compensation,
}
use cj_beer_company.Warehouses.AllocationSaga.Rows.{has}
use cj_beer_company.Warehouses.AllocationSaga.Invariant.{IsConsistent, must_parse-named}

abbrev pub first_row : List SagaRowData → Option SagaRowData
first_row [] = none
first_row (d ∷ ds) = some d

pub first_of-rows_in :
    (state : RowState) (rs : List SagaRow)
    → has state rs ≡ true
    → (d : SagaRowData) × (first_row (rows_in state rs) ≡ some d)
      × (row_in_state d.beer_id state rs ≡ true)
unfolding has rows_in row_in_state
first_of-rows_in state [] h = cc
first_of-rows_in state (r ∷ rs) h = elim (Bool-cases (same_state r.state state)) [
  | inl here ↦ (r.row, rw here, rw (here, eq_refl r.row.beer_id))
  | inr later ↦
      let (d, first, there) = first_of-rows_in state rs (rw later at h) in
      (d, rw later first, ground (arith, there))
]

-- The observation reports a change.
abbrev pub HasMoved : Result (Aggregate × Bool) → Type 0
HasMoved (ok (t, moved)) = moved ≡ true
HasMoved (err e) = ⊥

module _ (uuids : UuidCodec) (c : Uuid) (b : String) (s : Aggregate)
    (h : IsConsistent uuids s) where
  pub record_allocation_succeeded-HasMoved :
      s.state.status ≡ running
      → row_in_state b pending s.state.rows ≡ true
      → HasMoved (record_allocation_succeeded uuids c b s)
  unfolding record_allocation_succeeded after_success
  record_allocation_succeeded-HasMoved e there = rw (e, there, must_parse-named uuids s h) refl

  pub record_quantity_not_found-HasMoved :
      (reason : String)
      → s.state.status ≡ running
      → row_in_state b pending s.state.rows ≡ true
      → HasMoved (record_quantity_not_found uuids c b reason s)
  unfolding record_quantity_not_found after_failure
  record_quantity_not_found-HasMoved reason e there = rw (e, there, must_parse-named uuids s h) refl

  pub record_compensated-HasMoved :
      s.state.status ≡ compensating
      → row_in_state b allocated s.state.rows ≡ true
      → HasMoved (record_compensated uuids c b s)
  unfolding record_compensated after_compensation
  record_compensated-HasMoved e there = rw (e, there, must_parse-named uuids s h) refl
