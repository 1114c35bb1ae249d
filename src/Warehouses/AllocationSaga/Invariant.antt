-- ===== src/Warehouses/AllocationSaga/Invariant.antt =====
-- What holds of a started saga, and that every observation keeps it.
use cj_beer_company.Prelude.{
  String, ◌≡◌, refl, sym, Bool, true, false, ◌||◌, List, [], ◌∷◌, All, arith, Bool-cases, inl, inr,
  if◌then◌else◌, subst,
}
use cj_beer_company.CustomTypes.{Uuid, UuidCodec}
use cj_beer_company.Outcome.{Result, ok, err}
use cj_beer_company.Warehouses.Events.{SagaRowData}
use cj_beer_company.Warehouses.AllocationSaga.{
  SagaStatus, unstarted, running, compensating, completed, rejected, is_running, is_compensating,
  pending, allocated, failed, compensated, SagaRow, Aggregate, row_in_state, all_rows_in,
  set_row_state, rows_in, is_nil, must_parse, start_order_allocation, record_allocation_succeeded,
  record_quantity_not_found, record_compensated, after_success, after_failure, after_compensation,
}
use cj_beer_company.Warehouses.AllocationSaga.Rows.{
  has, IsOpen, has-set_row_state, set_row_state-IsOpen, pending_of-not-All, is_nil-rows_in,
  not_nil-rows_in, IsOpen-start,
}

-- Some row was given up, or given back.
abbrev pub is_undone : List SagaRow → Bool
is_undone rows = has failed rows || has compensated rows

-- What the rows of a saga say at each status.
abbrev pub Fits : SagaStatus → List SagaRow → Type 0
Fits unstarted rows = ⊥
Fits running rows = All IsOpen rows × (has pending rows ≡ true)
Fits compensating rows = (has allocated rows ≡ true) × (is_undone rows ≡ true)
Fits completed rows = all_rows_in allocated rows ≡ true
Fits rejected rows = (has allocated rows ≡ false) × (is_undone rows ≡ true)

module _ (uuids : UuidCodec) where
  pub record IsConsistent (s : Aggregate) : Type 0 where
    pub fits : Fits s.state.status s.state.rows
    pub named : s.state.sales_order_id ≡ uuids.to_string s.id

  -- An observation returned without a panic: the saga is consistent, and where the observation
  -- reports no change it is the same saga.
  abbrev pub HasObserved : Aggregate → Result (Aggregate × Bool) → Type 0
  HasObserved s (ok (b, moved)) = IsConsistent b × (b.id ≡ s.id) × (moved ≡ false → b ≡ s)
  HasObserved s (err e) = ⊥

  unchanged : (s : Aggregate) → IsConsistent s → HasObserved s (ok (s, false))
  unchanged s h = (h, refl, λ _. refl)

  pub must_parse-named :
      (s : Aggregate) → IsConsistent s → must_parse uuids s.state.sales_order_id ≡ ok s.id
  unfolding must_parse
  must_parse-named s h = rw h.named (rw (uuids.parse-to_string s.id, must_parse))

  pub Fits-of :
      {t : SagaStatus} (s : Aggregate) → s.state.status ≡ t → IsConsistent s → Fits t s.state.rows
  Fits-of s e h = subst (λ t. Fits t s.state.rows) e h.fits

pub running_of : (t : SagaStatus) → is_running t ≡ true → t ≡ running
running_of running h = refl
running_of _ h = cc

pub compensating_of : (t : SagaStatus) → is_compensating t ≡ true → t ≡ compensating
compensating_of compensating h = refl
compensating_of _ h = cc

module _ (uuids : UuidCodec) (c : Uuid) (b : String) (s : Aggregate)
    (h : IsConsistent uuids s) where
  after_success-HasObserved :
      s.state.status ≡ running → HasObserved uuids s (after_success uuids c b s (ok s.id))
  unfolding after_success
  after_success-HasObserved e =
      let (open_rows, some_pending) = Fits-of uuids s e h in
      let rows = set_row_state b allocated s.state.rows in
      let open_after = set_row_state-IsOpen b s.state.rows open_rows in
      elim (Bool-cases (all_rows_in allocated rows)) [
        | inl all ↦ rw all (record { fits = all; named = h.named }, refl, λ k. cc)
        | inr more ↦ rw more (
          record {
            fits =
                subst (λ t. Fits t rows) (sym e)
                  (open_after, pending_of-not-All rows open_after more);
            named = h.named;
          },
          refl,
          λ k. cc,
        )
      ]

  after_failure-HasObserved :
      (reason : String)
      → row_in_state b pending s.state.rows ≡ true
      → HasObserved uuids s (after_failure uuids c b reason s (ok s.id))
  unfolding after_failure
  after_failure-HasObserved reason there =
      let rows = set_row_state b failed s.state.rows in
      let undone : is_undone rows ≡ true =
        ground (arith, has-set_row_state b pending failed s.state.rows there) in
      elim (Bool-cases (is_nil (rows_in allocated rows))) [
        | inl none_left ↦ rw none_left (
          record { fits = (is_nil-rows_in allocated rows none_left, undone); named = h.named },
          refl,
          λ k. cc,
        )
        | inr some_left ↦ rw some_left (
          record { fits = (not_nil-rows_in allocated rows some_left, undone); named = h.named },
          refl,
          λ k. cc,
        )
      ]

  after_compensation-HasObserved :
      s.state.status ≡ compensating
      → row_in_state b allocated s.state.rows ≡ true
      → HasObserved uuids s (after_compensation uuids c b s (ok s.id))
  unfolding after_compensation
  after_compensation-HasObserved e there =
      let rows = set_row_state b compensated s.state.rows in
      let undone : is_undone rows ≡ true =
        ground (arith, has-set_row_state b allocated compensated s.state.rows there) in
      rw (e, is_compensating)
        (elim (Bool-cases (is_nil (rows_in allocated rows))) [
          | inl none_left ↦ rw none_left (
            record { fits = (is_nil-rows_in allocated rows none_left, undone); named = h.named },
            refl,
            λ k. cc,
          )
          | inr some_left ↦ rw some_left (
            record { fits = (not_nil-rows_in allocated rows some_left, undone); named = h.named },
            refl,
            λ k. cc,
          )
        ])

  -- Each of the three observations returns without a panic. The saga stays consistent and keeps its
  -- id, and where the observation reports no change the saga is the same.
  pub record_allocation_succeeded-HasObserved :
      HasObserved uuids s (record_allocation_succeeded uuids c b s)
  unfolding record_allocation_succeeded
  record_allocation_succeeded-HasObserved = elim (Bool-cases (is_running s.state.status)) [
    | inl runs ↦ elim (Bool-cases (row_in_state b pending s.state.rows)) [
      | inl there ↦
          rw (runs, there)
            (rw (must_parse-named uuids s h)
              (after_success-HasObserved (running_of s.state.status runs)))
      | inr absent ↦ rw (runs, absent) (unchanged uuids s h)
    ]
    | inr stopped ↦ rw stopped (unchanged uuids s h)
  ]

  pub record_quantity_not_found-HasObserved :
      (reason : String) → HasObserved uuids s (record_quantity_not_found uuids c b reason s)
  unfolding record_quantity_not_found
  record_quantity_not_found-HasObserved reason = elim (Bool-cases (is_running s.state.status)) [
    | inl runs ↦ elim (Bool-cases (row_in_state b pending s.state.rows)) [
      | inl there ↦
          rw (runs, there)
            (rw (must_parse-named uuids s h) (after_failure-HasObserved reason there))
      | inr absent ↦ rw (runs, absent) (unchanged uuids s h)
    ]
    | inr stopped ↦ rw stopped (unchanged uuids s h)
  ]

  pub record_compensated-HasObserved : HasObserved uuids s (record_compensated uuids c b s)
  unfolding record_compensated
  record_compensated-HasObserved = elim (Bool-cases (is_compensating s.state.status)) [
    | inl undoing ↦ elim (Bool-cases (row_in_state b allocated s.state.rows)) [
      | inl there ↦
          rw (undoing, there)
            (rw (must_parse-named uuids s h)
              (after_compensation-HasObserved (compensating_of s.state.status undoing) there))
      | inr absent ↦ rw (undoing, absent) (unchanged uuids s h)
    ]
    | inr stopped ↦ rw stopped (unchanged uuids s h)
  ]

-- What a saga can be told: the outcome of a step, or of a compensating transaction.
pub data Observation : Type 0 where
  step_succeeded : String → Observation
  step_failed : String → String → Observation
  step_undone : String → Observation

abbrev pub observe : UuidCodec → Uuid → Observation → Aggregate → Result (Aggregate × Bool)
observe uuids c (step_succeeded b) s = record_allocation_succeeded uuids c b s
observe uuids c (step_failed b reason) s = record_quantity_not_found uuids c b reason s
observe uuids c (step_undone b) s = record_compensated uuids c b s

-- Whatever a consistent saga is told, the observation returns without a panic, the saga stays
-- consistent and keeps its id, and where no change is reported the saga is the same.
pub observe-HasObserved :
    (uuids : UuidCodec) (c : Uuid) (o : Observation) (s : Aggregate)
    → IsConsistent uuids s
    → HasObserved uuids s (observe uuids c o s)
observe-HasObserved uuids c (step_succeeded b) s h =
    record_allocation_succeeded-HasObserved uuids c b s h
observe-HasObserved uuids c (step_failed b reason) s h =
    record_quantity_not_found-HasObserved uuids c b s h reason
observe-HasObserved uuids c (step_undone b) s h = record_compensated-HasObserved uuids c b s h

-- A saga starts consistent, under the order's id: running if it has rows, and completed if not.
pub start_order_allocation-IsConsistent :
    (uuids : UuidCodec) (order c : Uuid) (rows : List SagaRowData)
    → let s = start_order_allocation uuids order c rows in
      IsConsistent uuids s
      × (s.id ≡ order)
      × (s.state.status ≡ (if is_nil rows then completed else running))
unfolding start_order_allocation all_rows_in has
start_order_allocation-IsConsistent uuids order c [] =
    (record { fits = refl; named = refl }, refl, refl)
start_order_allocation-IsConsistent uuids order c (d ∷ ds) =
    (record { fits = (IsOpen-start (d ∷ ds), refl); named = refl }, refl, refl)
