-- ===== src/Warehouses/AllocationSaga/Progress.antt =====
-- A saga in flight has a step to drive; runs of observations are short; answered, it settles.
use cj_beer_company.Prelude.{
  ℕ, suc, ◌+◌, ◌*◌, ◌≤◌, ◌<◌, ◌≡◌, refl, ap, ◌∙◌, Bool, true, false, List, [], ◌∷◌, arith,
  Bool-cases, inl, inr, if◌then◌else◌, length, some,
}
use cj_beer_company.CustomTypes.{Uuid, UuidCodec}
use cj_beer_company.Outcome.{Result, ok, err}
use cj_beer_company.Warehouses.Events.{SagaRowData}
use cj_beer_company.Warehouses.AllocationSaga.{
  running, compensating, pending, allocated, Aggregate, row_in_state, rows_in, is_nil,
  start_order_allocation, next_pending_row, rows_to_compensate,
}
use cj_beer_company.Warehouses.AllocationSaga.Rows.{first_pending_of-has, is_nil-rows_in}
use cj_beer_company.Warehouses.AllocationSaga.Weight.{
  Changed, weight, observe-Lighter, start_weight,
}
use cj_beer_company.Warehouses.AllocationSaga.Invariant.{
  IsConsistent, Fits-of, Observation, observe, HasObserved, observe-HasObserved,
  start_order_allocation-IsConsistent,
}

module _ (uuids : UuidCodec) where
  -- A running saga has a next step, and its row is pending; a compensating saga has a row to give
  -- back.
  pub in_flight_has_step :
      (s : Aggregate)
      → IsConsistent uuids s
      → (s.state.status ≡ running
          → (d : SagaRowData) × (next_pending_row s.state ≡ some d)
            × (row_in_state d.beer_id pending s.state.rows ≡ true))
        × (s.state.status ≡ compensating → is_nil (rows_to_compensate s.state) ≡ false)
  unfolding next_pending_row rows_to_compensate
  in_flight_has_step s h = (running_step, compensating_step)
    where
      running_step :
          s.state.status ≡ running
          → (d : SagaRowData) × (next_pending_row s.state ≡ some d)
            × (row_in_state d.beer_id pending s.state.rows ≡ true)
      running_step e =
          let (d, first, there) = first_pending_of-has s.state.rows (Fits-of uuids s e h).1 in
          (d, rw e first, there)

      compensating_step :
          s.state.status ≡ compensating → is_nil (rows_to_compensate s.state) ≡ false
      compensating_step e = elim (Bool-cases (is_nil (rows_in allocated s.state.rows))) [
        | inl gone ↦ cc (is_nil-rows_in allocated s.state.rows gone, (Fits-of uuids s e h).0)
        | inr left ↦ rw e left
      ]

-- A run of observations, each under its commit id, and how many of them changed the saga.
counted : Bool → Result (Aggregate × ℕ) → Result (Aggregate × ℕ)
counted moved (ok (t, n)) = ok (t, if moved then suc n else n)
counted moved (err e) = err e

then_run : Result (Aggregate × Bool) → (Aggregate → Result (Aggregate × ℕ)) → Result (Aggregate × ℕ)
unfolding counted
then_run (ok (b, moved)) k = counted moved (k b)
then_run (err e) k = err e

module _ (uuids : UuidCodec) where
  unfoldable pub run : List (Uuid × Observation) → Aggregate → Result (Aggregate × ℕ)
  unfolding then_run
  run [] s = ok (s, 0)
  run ((c, o) ∷ os) s = then_run (observe uuids c o s) (run os)

  abbrev HasRun : Aggregate → Result (Aggregate × ℕ) → Type 0
  HasRun s (ok (t, n)) =
      IsConsistent uuids t × (t.id ≡ s.id) × (n + weight t.state.rows ≤ weight s.state.rows)
  HasRun s (err e) = ⊥

  counted-HasRun :
      (s b : Aggregate) (moved : Bool) (r : Result (Aggregate × ℕ))
      → b.id ≡ s.id
      → (moved ≡ false → b ≡ s)
      → (moved ≡ true → weight b.state.rows < weight s.state.rows)
      → HasRun b r
      → HasRun s (counted moved r)
  unfolding counted
  counted-HasRun s b moved (err e) i same lighter h = h
  counted-HasRun s b true (ok (t, n)) i same lighter (h, j, le) =
      (h, j ∙ i, omega (arith, le, lighter refl))
  counted-HasRun s b false (ok (t, n)) i same lighter (h, j, le) =
      let e : weight b.state.rows ≡ weight s.state.rows =
        ap (λ (a : Aggregate). weight a.state.rows) (same refl) in
      (h, j ∙ i, omega (arith, le, e))

  run-HasRun :
      (os : List (Uuid × Observation)) (s : Aggregate) → IsConsistent uuids s → HasRun s (run os s)
  unfolding run then_run
  run-HasRun [] s h = (h, refl, omega arith)
  run-HasRun ((c, o) ∷ os) s h =
      step (observe uuids c o s) (observe-HasObserved uuids c o s h) (observe-Lighter uuids c o s h)
        (λ b k. run-HasRun os b k)
    where
      step :
          (r : Result (Aggregate × Bool))
          → HasObserved uuids s r
          → Changed (λ t. weight t.state.rows < weight s.state.rows) r
          → ((b : Aggregate) → IsConsistent uuids b → HasRun b (run os b))
          → HasRun s (then_run r (run os))
      step (err e) obs lighter rest = obs
      step (ok (b, moved)) (k, i, same) lighter rest =
          counted-HasRun s b moved (run os b) i same lighter (rest b k)

  -- Whatever a started saga of `rows` is told, in whatever order and however often, no observation
  -- panics, the saga stays consistent under the order's id, and at most `2 * length rows`
  -- observations change it.
  pub run-start_order_allocation :
      (order c : Uuid) (rows : List SagaRowData) (os : List (Uuid × Observation))
      → (t : Aggregate) × (n : ℕ) × (run os (start_order_allocation uuids order c rows) ≡ ok (t, n))
        × IsConsistent uuids t
        × (t.id ≡ order)
        × (n ≤ 2 * length rows)
  unfolding start_order_allocation
  run-start_order_allocation order c rows os =
      found (run os (start_order_allocation uuids order c rows)) refl (
        run-HasRun os (start_order_allocation uuids order c rows)
          (start_order_allocation-IsConsistent uuids order c rows).0)
    where
      found :
          (r : Result (Aggregate × ℕ))
          → run os (start_order_allocation uuids order c rows) ≡ r
          → HasRun (start_order_allocation uuids order c rows) r
          → (t : Aggregate) × (n : ℕ) × (run os (start_order_allocation uuids order c rows)
              ≡ ok (t, n))
            × IsConsistent uuids t
            × (t.id ≡ order)
            × (n ≤ 2 * length rows)
      found (err e) eq h = elim h [ ]
      found (ok (t, n)) eq (h, i, le) = (
        t,
        n,
        eq,
        h,
        i ∙ (start_order_allocation-IsConsistent uuids order c rows).1,
        omega (arith, le, start_weight uuids order c rows),
      )
