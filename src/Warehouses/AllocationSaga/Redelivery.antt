-- ===== src/Warehouses/AllocationSaga/Redelivery.antt =====
-- An observation that is delivered again changes nothing.
use cj_beer_company.Prelude.{
  String, ◌≡◌, refl, ap, ◌∙◌, Bool, true, false, not, ◌||◌, arith, Bool-cases, inl, inr,
}
use cj_beer_company.CustomTypes.{Uuid, UuidCodec}
use cj_beer_company.Outcome.{Result, ok, err}
use cj_beer_company.Warehouses.AllocationSaga.{
  compensating, is_running, is_compensating, pending, allocated, failed, compensated, Aggregate,
  row_in_state, all_rows_in, set_row_state, rows_in, is_nil, must_parse,
  record_allocation_succeeded, record_quantity_not_found, record_compensated, after_success,
  after_failure, after_compensation,
}
use cj_beer_company.Warehouses.AllocationSaga.Rows.{row_in_state-set_ne}
use cj_beer_company.Warehouses.AllocationSaga.Weight.{Changed}
use cj_beer_company.Warehouses.AllocationSaga.Invariant.{
  IsConsistent, Observation, step_succeeded, step_failed, step_undone, observe, observe-HasObserved,
  compensating_of,
}

module _ (uuids : UuidCodec) (c : Uuid) (b : String) (s : Aggregate) where
  -- What the guards of the three records read, of a saga that a change has left.
  after_success-guard :
      (r : Result Uuid)
      → Changed (λ t. row_in_state b pending t.state.rows ≡ false) (after_success uuids c b s r)
  unfolding after_success
  after_success-guard (err e) = tt
  after_success-guard (ok id) =
      let gone = row_in_state-set_ne b allocated pending s.state.rows refl in
      elim (Bool-cases (all_rows_in allocated (set_row_state b allocated s.state.rows))) [
        | inl all ↦ rw all (λ _. gone)
        | inr more ↦ rw more (λ _. gone)
      ]

  pub after_failure-guard :
      (reason : String) (r : Result Uuid)
      → Changed (λ t. is_running t.state.status ≡ false) (after_failure uuids c b reason s r)
  unfolding after_failure
  after_failure-guard reason (err e) = tt
  after_failure-guard reason (ok id) =
      elim (Bool-cases (is_nil (rows_in allocated (set_row_state b failed s.state.rows)))) [
        | inl gone ↦ rw gone (λ _. refl)
        | inr left ↦ rw left (λ _. refl)
      ]

  after_compensation-guard :
      (r : Result Uuid)
      → s.state.status ≡ compensating
      → Changed
          (λ t. row_in_state b allocated t.state.rows ≡ false)
          (after_compensation uuids c b s r)
  unfolding after_compensation
  after_compensation-guard (err e) k = tt
  after_compensation-guard (ok id) k =
      let other = row_in_state-set_ne b compensated allocated s.state.rows refl in
      rw (k, is_compensating)
        (elim (Bool-cases (is_nil (rows_in allocated (set_row_state b compensated s.state.rows)))) [
          | inl gone ↦ rw gone (λ _. other)
          | inr left ↦ rw left (λ _. other)
        ])

or_not : (x y : Bool) → y ≡ false → (x || not y) ≡ true
or_not x y h = ground arith

module _ (uuids : UuidCodec) (c d : Uuid) (s : Aggregate) where
  record_allocation_succeeded-again :
      (b : String)
      → Changed
          (λ t.
            (u : Aggregate)
            → u.state ≡ t.state
            → record_allocation_succeeded uuids d b u ≡ ok (u, false))
          (record_allocation_succeeded uuids c b s)
  unfolding record_allocation_succeeded
  record_allocation_succeeded-again b = elim (Bool-cases (is_running s.state.status)) [
    | inl runs ↦ elim (Bool-cases (row_in_state b pending s.state.rows)) [
      | inl there ↦
          rw (runs, there)
            (blocked (after_success uuids c b s (must_parse uuids s.state.sales_order_id))
              (after_success-guard uuids c b s (must_parse uuids s.state.sales_order_id)))
      | inr absent ↦ rw (runs, absent) (λ k. cc)
    ]
    | inr stopped ↦ rw stopped (λ k. cc)
  ]
    where
      blocked :
          (r : Result (Aggregate × Bool))
          → Changed (λ t. row_in_state b pending t.state.rows ≡ false) r
          → Changed
              (λ t.
                (u : Aggregate)
                → u.state ≡ t.state
                → record_allocation_succeeded uuids d b u ≡ ok (u, false))
              r
      blocked (err e) h = tt
      blocked (ok (t, moved)) h =
          λ k u e. rw (e, or_not (not (is_running t.state.status)) _ (h k)) refl

  record_quantity_not_found-again :
      (b reason : String)
      → Changed
          (λ t.
            (u : Aggregate)
            → u.state ≡ t.state
            → record_quantity_not_found uuids d b reason u ≡ ok (u, false))
          (record_quantity_not_found uuids c b reason s)
  unfolding record_quantity_not_found
  record_quantity_not_found-again b reason = elim (Bool-cases (is_running s.state.status)) [
    | inl runs ↦ elim (Bool-cases (row_in_state b pending s.state.rows)) [
      | inl there ↦
          rw (runs, there)
            (blocked (after_failure uuids c b reason s (must_parse uuids s.state.sales_order_id))
              (after_failure-guard uuids c b s reason (must_parse uuids s.state.sales_order_id)))
      | inr absent ↦ rw (runs, absent) (λ k. cc)
    ]
    | inr stopped ↦ rw stopped (λ k. cc)
  ]
    where
      blocked :
          (r : Result (Aggregate × Bool))
          → Changed (λ t. is_running t.state.status ≡ false) r
          → Changed
              (λ t.
                (u : Aggregate)
                → u.state ≡ t.state
                → record_quantity_not_found uuids d b reason u ≡ ok (u, false))
              r
      blocked (err e) h = tt
      blocked (ok (t, moved)) h = λ k u e. rw (e, h k) refl

  record_compensated-again :
      (b : String)
      → Changed
          (λ t.
            (u : Aggregate) → u.state ≡ t.state → record_compensated uuids d b u ≡ ok (u, false))
          (record_compensated uuids c b s)
  unfolding record_compensated
  record_compensated-again b = elim (Bool-cases (is_compensating s.state.status)) [
    | inl undoing ↦ elim (Bool-cases (row_in_state b allocated s.state.rows)) [
      | inl there ↦
          rw (undoing, there)
            (blocked (after_compensation uuids c b s (must_parse uuids s.state.sales_order_id)) (
              after_compensation-guard uuids c b s (must_parse uuids s.state.sales_order_id)
                (compensating_of s.state.status undoing)))
      | inr absent ↦ rw (undoing, absent) (λ k. cc)
    ]
    | inr stopped ↦ rw stopped (λ k. cc)
  ]
    where
      blocked :
          (r : Result (Aggregate × Bool))
          → Changed (λ t. row_in_state b allocated t.state.rows ≡ false) r
          → Changed
              (λ t.
                (u : Aggregate)
                → u.state ≡ t.state
                → record_compensated uuids d b u ≡ ok (u, false))
              r
      blocked (err e) h = tt
      blocked (ok (t, moved)) h =
          λ k u e. rw (e, or_not (not (is_compensating t.state.status)) _ (h k)) refl

module _ (uuids : UuidCodec) where
  -- A saga in the state that a change has left does nothing when it is told the same.
  pub observe-Changed :
      (c d : Uuid) (o : Observation) (s : Aggregate)
      → Changed
          (λ t. (u : Aggregate) → u.state ≡ t.state → observe uuids d o u ≡ ok (u, false))
          (observe uuids c o s)
  observe-Changed c d (step_succeeded b) s = record_allocation_succeeded-again uuids c d s b
  observe-Changed c d (step_failed b reason) s =
      record_quantity_not_found-again uuids c d s b reason
  observe-Changed c d (step_undone b) s = record_compensated-again uuids c d s b

  -- Telling a consistent saga the same again, in a redelivered message, reports no change and
  -- leaves the saga as it is.
  pub observe-again :
      (c : Uuid) (o : Observation) (s : Aggregate) (t : Aggregate) (moved : Bool)
      → IsConsistent uuids s
      → observe uuids c o s ≡ ok (t, moved)
      → observe uuids c o t ≡ ok (t, false)
  observe-again c o s t true h e = (rw e at (observe-Changed c c o s)) refl t refl
  observe-again c o s t false h e =
      let (k, i, same) = rw e at (observe-HasObserved uuids c o s h) in
      ap (observe uuids c o) (same refl) ∙ e
