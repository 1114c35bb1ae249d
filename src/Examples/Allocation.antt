-- ===== src/Examples/Allocation.antt =====
-- The allocation saga of an order of two beers.
use cj_beer_company.Prelude.{
  ℕ, ◌≤◌, String, ◌≡◌, refl, ◌⊎◌, true, false, Option, none, some, List, [], ◌∷◌, All, str_eq,
  if◌then◌else◌,
}
use cj_beer_company.CustomTypes.{Uuid}
use cj_beer_company.Outcome.{ok}
use cj_beer_company.Warehouses.AllocationSaga.{
  Aggregate, completed, rejected, allocated, all_rows_in, start_order_allocation,
  record_quantity_not_found, record_allocation_succeeded, rows_to_compensate,
}
use cj_beer_company.Warehouses.AllocationSaga.Rows.{has}
use cj_beer_company.Warehouses.AllocationSaga.Invariant.{
  IsConsistent, HasObserved, Observation, step_succeeded, step_failed, step_undone, observe,
  observe-HasObserved, start_order_allocation-IsConsistent,
}
use cj_beer_company.Warehouses.AllocationSaga.Progress.{run, run-start_order_allocation}
use cj_beer_company.Warehouses.AllocationSaga.Redelivery.{observe-again}
use cj_beer_company.Warehouses.AllocationSaga.Settlement.{settle, settle-start_order_allocation}
use cj_beer_company.Warehouses.AllocationSaga.Timeout.{IsOther, late_success-ignored}
use cj_beer_company.Examples.Data.{codec, two_rows, two_row_saga}

-- The second beer is short.
abbrev short_of_second : String → Option String
short_of_second b = if str_eq b "uuu" then some "short" else none

settle-start_order_allocation_example :
    (t : Aggregate) × (settle codec short_of_second 1 4 two_row_saga ≡ ok t)
    × (t.id ≡ 7)
    × (((t.state.status ≡ completed) × (all_rows_in allocated t.state.rows ≡ true))
        ⊎ ((t.state.status ≡ rejected) × (has allocated t.state.rows ≡ false)))
settle-start_order_allocation_example =
    settle-start_order_allocation codec short_of_second 1 7 two_rows

-- Both answers come twice, and one comes for a beer that was not ordered.
abbrev answers : List (Uuid × Observation)
answers =
    (2, step_succeeded "uu")
    ∷ (2, step_succeeded "uu")
    ∷ (3, step_failed "uuu" "short")
    ∷ (3, step_failed "uuu" "short")
    ∷ (4, step_undone "uuuu")
    ∷ []

run-start_order_allocation_example :
    (t : Aggregate) × (n : ℕ) × (run codec answers two_row_saga ≡ ok (t, n))
    × IsConsistent codec t
    × (t.id ≡ 7)
    × (n ≤ 4)
run-start_order_allocation_example = run-start_order_allocation codec 7 1 two_rows answers

two_row_saga-IsConsistent : IsConsistent codec two_row_saga
two_row_saga-IsConsistent = (start_order_allocation-IsConsistent codec 7 1 two_rows).0

abbrev first_allocated : Aggregate
first_allocated = elim (record_allocation_succeeded codec 2 "uu" two_row_saga) [
  | ok (t, moved) ↦ t
  | _ ↦ two_row_saga
]

observe-again_example :
    observe codec 2 (step_succeeded "uu") first_allocated ≡ ok (first_allocated, false)
unfolding record_allocation_succeeded start_order_allocation
observe-again_example =
    observe-again codec 2 (step_succeeded "uu") two_row_saga first_allocated true
      two_row_saga-IsConsistent refl

observe-HasObserved_example :
    HasObserved codec two_row_saga (observe codec 3 (step_failed "uu" "short") two_row_saga)
observe-HasObserved_example =
    observe-HasObserved codec 3 (step_failed "uu" "short") two_row_saga two_row_saga-IsConsistent

abbrev timed_out : Aggregate
timed_out =
    elim (record_quantity_not_found codec 2 "uuu" "allocation step timed out" first_allocated) [
      | ok (t, moved) ↦ t
      | _ ↦ two_row_saga
    ]

late_success-ignored_example :
    (record_allocation_succeeded codec 9 "uuu" timed_out ≡ ok (timed_out, false))
    × All (IsOther "uuu") (rows_to_compensate timed_out.state)
unfolding record_quantity_not_found record_allocation_succeeded start_order_allocation
late_success-ignored_example =
    late_success-ignored codec 2 9 "uuu" "allocation step timed out" first_allocated timed_out refl
