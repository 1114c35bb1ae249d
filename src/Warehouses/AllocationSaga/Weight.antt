-- ===== src/Warehouses/AllocationSaga/Weight.antt =====
-- The weight of a saga's rows, which every observation that changes the saga takes from.
use cj_beer_company.Prelude.{
  ℕ, ◌+◌, ◌*◌, ◌≤◌, ◌<◌, String, ◌≡◌, refl, ap, Bool, true, ◌||◌, List, [], ◌∷◌, All, map, arith,
  Bool-cases, inl, inr, length, str_eq,
}
use cj_beer_company.CustomTypes.{Uuid, UuidCodec}
use cj_beer_company.Outcome.{Result, ok, err}
use cj_beer_company.Warehouses.Events.{SagaRowData}
use cj_beer_company.Warehouses.AllocationSaga.{
  compensating, is_running, is_compensating, RowState, pending, allocated, failed, compensated,
  same_state, SagaRow, Aggregate, row_in_state, all_rows_in, set_row_state, rows_in, is_nil,
  must_parse, start_order_allocation, record_allocation_succeeded, record_quantity_not_found,
  record_compensated, after_success, after_failure, after_compensation,
}
use cj_beer_company.Warehouses.AllocationSaga.Rows.{IsOpen}
use cj_beer_company.Warehouses.AllocationSaga.Invariant.{
  IsConsistent, Fits-of, Observation, step_succeeded, step_failed, step_undone, observe, running_of,
  compensating_of,
}

-- What holds of the saga where an observation reports a change.
abbrev pub Changed : (Aggregate → Type 0) → Result (Aggregate × Bool) → Type 0
Changed P (ok (b, moved)) = moved ≡ true → P b
Changed P (err e) = Unit {0}

-- The weight of a row is how many transitions it may still make.
abbrev pub weight_of : RowState → ℕ
weight_of pending = 2
weight_of allocated = 1
weight_of _ = 0

unfoldable pub weight : List SagaRow → ℕ
weight [] = 0
weight (r ∷ rs) = weight_of r.state + weight rs

same_state_eq : (s t : RowState) → same_state s t ≡ true → s ≡ t
same_state_eq pending t h = ground arith
same_state_eq allocated t h = ground arith
same_state_eq failed t h = ground arith
same_state_eq compensated t h = ground arith

module _ (b : String) (new : RowState) where
  abbrev IsHeavier : SagaRow → Type 0
  IsHeavier r = weight_of new ≤ weight_of r.state

  weight-set_le :
      (rs : List SagaRow) → All IsHeavier rs → weight (set_row_state b new rs) ≤ weight rs
  unfolding weight set_row_state
  weight-set_le [] h = omega arith
  weight-set_le (r ∷ rs) h = ground (arith, weight-set_le rs h.1)

  weight-set_lt :
      (old : RowState) (rs : List SagaRow)
      → weight_of new < weight_of old
      → All IsHeavier rs
      → row_in_state b old rs ≡ true
      → weight (set_row_state b new rs) < weight rs
  unfolding weight set_row_state row_in_state
  weight-set_lt old [] w h there = cc
  weight-set_lt old (r ∷ rs) w h there = elim (Bool-cases (str_eq r.row.beer_id b)) [
    | inl mine ↦ elim (Bool-cases (same_state r.state old)) [
      | inl here ↦
          let e : weight_of r.state ≡ weight_of old =
            ap weight_of (same_state_eq r.state old here) in
          rw mine (omega (arith, e, weight-set_le rs h.1))
      | inr later ↦
          let rest = weight-set_lt old rs w h.1 (rw (mine, later) at there) in
          rw mine (omega (arith, h.0, rest))
    ]
    | inr other ↦
        let rest = weight-set_lt old rs w h.1 (rw other at there) in rw other (omega (arith, rest))
  ]

open-IsHeavier : (rs : List SagaRow) → All IsOpen rs → All (IsHeavier "" allocated) rs
open-IsHeavier [] h = tt
open-IsHeavier (r ∷ rs) h = (open_weight r.state h.0, open-IsHeavier rs h.1)
  where
    open_weight :
        (state : RowState)
        → (same_state state pending || same_state state allocated) ≡ true
        → 1 ≤ weight_of state
    open_weight pending o = omega arith
    open_weight allocated o = omega arith
    open_weight failed o = cc
    open_weight compensated o = cc

any-IsHeavier :
    (new : RowState) → weight_of new ≡ 0 → (rs : List SagaRow) → All (IsHeavier "" new) rs
any-IsHeavier new z [] = tt
any-IsHeavier new z (r ∷ rs) = (omega (arith, z), any-IsHeavier new z rs)

module _ (uuids : UuidCodec) (c : Uuid) (b : String) (s : Aggregate) where
  abbrev pub Lighter : Aggregate → Type 0
  Lighter t = weight t.state.rows < weight s.state.rows

  after_success-Lighter :
      (r : Result Uuid)
      → weight (set_row_state b allocated s.state.rows) < weight s.state.rows
      → Changed Lighter (after_success uuids c b s r)
  unfolding after_success
  after_success-Lighter (err e) h = tt
  after_success-Lighter (ok id) h =
      elim (Bool-cases (all_rows_in allocated (set_row_state b allocated s.state.rows))) [
        | inl all ↦ rw all (λ _. h)
        | inr more ↦ rw more (λ _. h)
      ]

  after_failure-Lighter :
      (reason : String) (r : Result Uuid)
      → weight (set_row_state b failed s.state.rows) < weight s.state.rows
      → Changed Lighter (after_failure uuids c b reason s r)
  unfolding after_failure
  after_failure-Lighter reason (err e) h = tt
  after_failure-Lighter reason (ok id) h =
      elim (Bool-cases (is_nil (rows_in allocated (set_row_state b failed s.state.rows)))) [
        | inl gone ↦ rw gone (λ _. h)
        | inr left ↦ rw left (λ _. h)
      ]

  after_compensation-Lighter :
      (r : Result Uuid)
      → s.state.status ≡ compensating
      → weight (set_row_state b compensated s.state.rows) < weight s.state.rows
      → Changed Lighter (after_compensation uuids c b s r)
  unfolding after_compensation
  after_compensation-Lighter (err e) k h = tt
  after_compensation-Lighter (ok id) k h =
      rw (k, is_compensating)
        (elim (Bool-cases (is_nil (rows_in allocated (set_row_state b compensated s.state.rows)))) [
          | inl gone ↦ rw gone (λ _. h)
          | inr left ↦ rw left (λ _. h)
        ])

  record_allocation_succeeded-Lighter :
      IsConsistent uuids s → Changed Lighter (record_allocation_succeeded uuids c b s)
  unfolding record_allocation_succeeded
  record_allocation_succeeded-Lighter h = elim (Bool-cases (is_running s.state.status)) [
    | inl runs ↦ elim (Bool-cases (row_in_state b pending s.state.rows)) [
      | inl there ↦
          rw (runs, there)
            (after_success-Lighter (must_parse uuids s.state.sales_order_id) (
              weight-set_lt b allocated pending s.state.rows (omega arith)
                (open-IsHeavier s.state.rows (Fits-of uuids s (running_of s.state.status runs) h).0)
                there))
      | inr absent ↦ rw (runs, absent) (λ k. cc)
    ]
    | inr stopped ↦ rw stopped (λ k. cc)
  ]

  record_quantity_not_found-Lighter :
      (reason : String) → Changed Lighter (record_quantity_not_found uuids c b reason s)
  unfolding record_quantity_not_found
  record_quantity_not_found-Lighter reason = elim (Bool-cases (is_running s.state.status)) [
    | inl runs ↦ elim (Bool-cases (row_in_state b pending s.state.rows)) [
      | inl there ↦
          rw (runs, there)
            (after_failure-Lighter reason (must_parse uuids s.state.sales_order_id) (
              weight-set_lt b failed pending s.state.rows (omega arith)
                (any-IsHeavier failed refl s.state.rows) there))
      | inr absent ↦ rw (runs, absent) (λ k. cc)
    ]
    | inr stopped ↦ rw stopped (λ k. cc)
  ]

  record_compensated-Lighter : Changed Lighter (record_compensated uuids c b s)
  unfolding record_compensated
  record_compensated-Lighter = elim (Bool-cases (is_compensating s.state.status)) [
    | inl undoing ↦ elim (Bool-cases (row_in_state b allocated s.state.rows)) [
      | inl there ↦
          rw (undoing, there)
            (after_compensation-Lighter (must_parse uuids s.state.sales_order_id)
              (compensating_of s.state.status undoing)
              (weight-set_lt b compensated allocated s.state.rows (omega arith)
                (any-IsHeavier compensated refl s.state.rows) there))
      | inr absent ↦ rw (undoing, absent) (λ k. cc)
    ]
    | inr stopped ↦ rw stopped (λ k. cc)
  ]

module _ (uuids : UuidCodec) where
  -- An observation that changes a consistent saga makes its rows lighter.
  pub observe-Lighter :
      (c : Uuid) (o : Observation) (s : Aggregate)
      → IsConsistent uuids s
      → Changed (λ t. weight t.state.rows < weight s.state.rows) (observe uuids c o s)
  observe-Lighter c (step_succeeded b) s h = record_allocation_succeeded-Lighter uuids c b s h
  observe-Lighter c (step_failed b reason) s h =
      record_quantity_not_found-Lighter uuids c b s reason
  observe-Lighter c (step_undone b) s h = record_compensated-Lighter uuids c b s

weight-start :
    (rows : List SagaRowData)
    → weight (map (λ r. record { row = r; state = pending }) rows) ≡ 2 * length rows
unfolding weight
weight-start [] = refl
weight-start (d ∷ ds) = omega (arith, weight-start ds)

pub start_weight :
    (uuids : UuidCodec) (order c : Uuid) (rows : List SagaRowData)
    → weight (start_order_allocation uuids order c rows).state.rows ≡ 2 * length rows
unfolding start_order_allocation
start_weight uuids order c [] = weight-start []
start_weight uuids order c (d ∷ ds) = weight-start (d ∷ ds)
