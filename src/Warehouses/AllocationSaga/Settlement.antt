-- ===== src/Warehouses/AllocationSaga/Settlement.antt =====
-- A saga whose steps are answered, whatever the answers, settles.
use cj_beer_company.Prelude.{
  ℕ, zero, suc, ◌*◌, ◌≤◌, ◌<◌, String, ◌≡◌, refl, sym, ap, ◌∙◌, Bool, true, false, List, length,
  arith, inl, inr, ◌⊎◌, subst, Option, none, some,
}
use cj_beer_company.CustomTypes.{Uuid, UuidCodec}
use cj_beer_company.Outcome.{Result, ok, err}
use cj_beer_company.Warehouses.Events.{SagaRowData}
use cj_beer_company.Warehouses.AllocationSaga.{
  SagaStatus, unstarted, running, compensating, completed, rejected, pending, allocated,
  OrderAllocationSaga, Aggregate, row_in_state, all_rows_in, start_order_allocation,
  next_pending_row, rows_to_compensate,
}
use cj_beer_company.Warehouses.AllocationSaga.Rows.{has}
use cj_beer_company.Warehouses.AllocationSaga.Weight.{
  Changed, weight, observe-Lighter, start_weight,
}
use cj_beer_company.Warehouses.AllocationSaga.Moves.{
  first_row, first_of-rows_in, HasMoved, record_allocation_succeeded-HasMoved,
  record_quantity_not_found-HasMoved, record_compensated-HasMoved,
}
use cj_beer_company.Warehouses.AllocationSaga.Progress.{in_flight_has_step}
use cj_beer_company.Warehouses.AllocationSaga.Invariant.{
  IsConsistent, Fits-of, Observation, step_succeeded, step_failed, step_undone, observe,
  HasObserved, observe-HasObserved, start_order_allocation-IsConsistent,
}

-- `verdict` says of each beer why the warehouse refuses it, or `none` where it allocates it.
module _ (uuids : UuidCodec) (verdict : String → Option String) (c : Uuid) where
  reply_as : String → Option String → Observation
  reply_as b none = step_succeeded b
  reply_as b (some reason) = step_failed b reason

  reply : SagaRowData → Observation
  unfolding reply_as
  reply d = reply_as d.beer_id (verdict d.beer_id)

  answer_of : Option SagaRowData → Option SagaRowData → Option Observation
  unfolding reply
  answer_of (some d) given_up = some (reply d)
  answer_of none (some d) = some (step_undone d.beer_id)
  answer_of none none = none

  -- What the warehouse answers to the step that the saga is waiting for.
  next_answer : OrderAllocationSaga → Option Observation
  unfolding answer_of
  next_answer s = answer_of (next_pending_row s) (first_row (rows_to_compensate s))

  after_observe : Result (Aggregate × Bool) → (Aggregate → Result Aggregate) → Result Aggregate
  after_observe (err e) k = err e
  after_observe (ok (t, moved)) k = k t

  answered : Option Observation → Aggregate → (Aggregate → Result Aggregate) → Result Aggregate
  unfolding after_observe
  answered none s k = ok s
  answered (some o) s k = after_observe (observe uuids c o s) k

  -- At most `n` answers.
  unfoldable pub settle : ℕ → Aggregate → Result Aggregate
  unfolding answered next_answer
  settle zero s = ok s
  settle (suc n) s = answered (next_answer s.state) s (settle n)

  abbrev pub IsSettled : SagaStatus → Type 0
  IsSettled t = (t ≡ completed) ⊎ (t ≡ rejected)

  reply-HasMoved :
      (s : Aggregate) (b : String) (v : Option String)
      → IsConsistent uuids s
      → s.state.status ≡ running
      → row_in_state b pending s.state.rows ≡ true
      → HasMoved (observe uuids c (reply_as b v) s)
  unfolding reply_as
  reply-HasMoved s b none h e there = record_allocation_succeeded-HasMoved uuids c b s h e there
  reply-HasMoved s b (some reason) h e there =
      record_quantity_not_found-HasMoved uuids c b s h reason e there

  -- A settled saga is waiting for nothing; the answer to any other changes it.
  abbrev Waits : Aggregate → SagaStatus → Type 0
  Waits s t =
      ((next_answer s.state ≡ none) × IsSettled t)
      ⊎ ((o : Observation) × (next_answer s.state ≡ some o) × HasMoved (observe uuids c o s))

  Waits-running :
      (s : Aggregate) → IsConsistent uuids s → s.state.status ≡ running → Waits s running
  unfolding next_answer answer_of reply
  Waits-running s h e =
      let (d, next, there) = (in_flight_has_step uuids s h).0 e in
      inr (
        reply d,
        ap (λ o. answer_of o (first_row (rows_to_compensate s.state))) next,
        reply-HasMoved s d.beer_id (verdict d.beer_id) h e there,
      )

  next_answer-cases :
      (s : Aggregate) (t : SagaStatus) → IsConsistent uuids s → s.state.status ≡ t → Waits s t
  unfolding next_answer next_pending_row rows_to_compensate
  next_answer-cases s unstarted h e = elim (Fits-of uuids s e h) [ ]
  next_answer-cases s running h e = Waits-running s h e
  next_answer-cases s compensating h e =
      let (d, first, there) = first_of-rows_in allocated s.state.rows (Fits-of uuids s e h).0 in
      inr (
        step_undone d.beer_id,
        rw (e, first) refl,
        record_compensated-HasMoved uuids c d.beer_id s h e there,
      )
  next_answer-cases s completed h e = inl (rw e refl, inl refl)
  next_answer-cases s rejected h e = inl (rw e refl, inr refl)

  abbrev HasSettled : Aggregate → Result Aggregate → Type 0
  HasSettled s (ok t) = IsConsistent uuids t × (t.id ≡ s.id) × IsSettled t.state.status
  HasSettled s (err e) = ⊥

  abbrev IsLighter : Aggregate → Result (Aggregate × Bool) → Type 0
  IsLighter s = Changed (λ t. weight t.state.rows < weight s.state.rows)

  weightless_still :
      (s : Aggregate) (r : Result (Aggregate × Bool))
      → weight s.state.rows ≤ 0
      → HasMoved r
      → IsLighter s r
      → ⊥
  weightless_still s (err e) le m lighter = m
  weightless_still s (ok (t, moved)) le m lighter = omega (arith, le, lighter m)

  same_order :
      (s t : Aggregate) (r : Result Aggregate) → t.id ≡ s.id → HasSettled t r → HasSettled s r
  same_order s t (err e) i h = h
  same_order s t (ok u) i (h, j, settled) = (h, j ∙ i, settled)

  after_observe-HasSettled :
      (n : ℕ) (s : Aggregate) (r : Result (Aggregate × Bool))
      → weight s.state.rows ≤ suc n
      → HasObserved uuids s r
      → IsLighter s r
      → HasMoved r
      → ((t : Aggregate)
          → IsConsistent uuids t
          → weight t.state.rows ≤ n
          → HasSettled t (settle n t))
      → HasSettled s (after_observe r (settle n))
  unfolding after_observe
  after_observe-HasSettled n s (err e) le h lighter m k = h
  after_observe-HasSettled n s (ok (t, moved)) le (h, i, same) lighter m k =
      same_order s t (settle n t) i (k t h (omega (arith, le, lighter m)))

  -- A consistent saga settles within as many answers as its rows weigh.
  settle-HasSettled :
      (n : ℕ) (s : Aggregate)
      → IsConsistent uuids s
      → weight s.state.rows ≤ n
      → HasSettled s (settle n s)
  unfolding settle answered
  settle-HasSettled zero s h le = elim (next_answer-cases s s.state.status h refl) [
    | inl (e, settled) ↦ (h, refl, settled)
    | inr (o, e, m) ↦
        absurd (weightless_still s (observe uuids c o s) le m (observe-Lighter uuids c o s h))
  ]
  settle-HasSettled (suc n) s h le = elim (next_answer-cases s s.state.status h refl) [
    | inl (e, settled) ↦
        subst (λ a. HasSettled s (answered a s (settle n))) (sym e) (h, refl, settled)
    | inr (o, e, m) ↦
        subst (λ a. HasSettled s (answered a s (settle n))) (sym e)
          (after_observe-HasSettled n s (observe uuids c o s) le (observe-HasObserved uuids c o s h)
            (observe-Lighter uuids c o s h) m (settle-HasSettled n))
  ]

  -- What holds of a result that is there.
  settled_of :
      (order : Uuid) (s : Aggregate) (r : Result Aggregate)
      → s.id ≡ order
      → HasSettled s r
      → (t : Aggregate) × (r ≡ ok t)
        × (t.id ≡ order)
        × (((t.state.status ≡ completed) × (all_rows_in allocated t.state.rows ≡ true))
            ⊎ ((t.state.status ≡ rejected) × (has allocated t.state.rows ≡ false)))
  settled_of order s (err e) i h = absurd h
  settled_of order s (ok t) i (h, j, settled) = (
    t,
    refl,
    j ∙ i,
    elim settled [
      | inl done ↦ inl (done, Fits-of uuids t done h)
      | inr undone ↦ inr (undone, (Fits-of uuids t undone h).0)
    ],
  )

  -- Whatever the warehouse answers, a started saga of `rows` settles within `2 * length rows`
  -- answers: completed, with every row allocated, or rejected, with no row left allocated.
  pub settle-start_order_allocation :
      (order : Uuid) (rows : List SagaRowData)
      → (t : Aggregate) × (settle (2 * length rows) (start_order_allocation uuids order c rows)
          ≡ ok t)
        × (t.id ≡ order)
        × (((t.state.status ≡ completed) × (all_rows_in allocated t.state.rows ≡ true))
            ⊎ ((t.state.status ≡ rejected) × (has allocated t.state.rows ≡ false)))
  settle-start_order_allocation order rows =
      let (h, i, _) = start_order_allocation-IsConsistent uuids order c rows in
      settled_of order (start_order_allocation uuids order c rows)
        (settle (2 * length rows) (start_order_allocation uuids order c rows)) i
        (settle-HasSettled (2 * length rows) (start_order_allocation uuids order c rows) h
          (omega (arith, start_weight uuids order c rows)))
