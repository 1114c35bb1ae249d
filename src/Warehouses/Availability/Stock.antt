-- ===== src/Warehouses/Availability/Stock.antt =====
-- What each operation does to the stock, and that a repeated saga step moves nothing.
use cj_beer_company.Prelude.{
  String, ◌≡◌, ◌≢◌, refl, true, false, arith, str_eq, eq_iff, Bool-cases, inl, inr,
}
use cj_beer_company.Prelude.Int.{
  pos, ◌≤ℤ◌, ◌+ℤ◌, ◌-ℤ◌, ltb_ℤ, leb_ℤ, sub64_taken, add64_exact, InRange, leb_ℤ_of_pos,
  le_of_not_ltb_ℤ, not_le_of_ltb_ℤ,
}
use cj_beer_company.CustomTypes.{Uuid, Quantity}
use cj_beer_company.Outcome.{Result, ok, err}
use cj_beer_company.Warehouses.SharedKernel.{BeerId, BeerName}
use cj_beer_company.Warehouses.Availability.{
  Availability, Aggregate, create_availability, update_due_to_sales_order,
  compensate_due_to_failed_allocation, update_due_to_production_order, err_invalid_quantity,
}
use cj_beer_company.Warehouses.Availability.Held.{contains, hold, release, release-absent}

-- An amount on hand: not negative, and an `int`.
abbrev pub IsStocked : Aggregate → Type 0
IsStocked a = (pos 0 ≤ℤ a.state.quantity.value) × InRange a.state.quantity.value

-- The ways in which an allocation step can go.
pub data Allocation (q : Quantity) (order : String) (s t : Availability) : Type 0 where
  -- the order holds stock already: nothing changes
  repeated : contains order s.held ≡ true → t ≡ s → Allocation q order s t
  -- a shortage: nothing changes
  refused :
      contains order s.held ≡ false
      → ¬ (q.value ≤ℤ s.quantity.value)
      → t ≡ s
      → Allocation q order s t
  -- the amount leaves the stock, and the order holds it
  moved :
      contains order s.held ≡ false
      → q.value ≤ℤ s.quantity.value
      → t ≡ record s {
        quantity = record s.quantity { value = s.quantity.value -ℤ q.value };
        held = hold order s.held;
      }
      → Allocation q order s t

-- The ways in which a compensating transaction can go.
pub data Compensation (q : Quantity) (order : String) (s t : Availability) : Type 0 where
  -- the order holds nothing: nothing changes
  repeated : contains order s.held ≡ false → t ≡ s → Compensation q order s t
  -- the amount comes back, and the order holds nothing
  returned :
      contains order s.held ≡ true
      → t ≡ record s {
        quantity = record s.quantity { value = s.quantity.value +ℤ q.value };
        held = release order s.held;
      }
      → Compensation q order s t

abbrev pub HasCompensated : Quantity → String → Availability → Result Aggregate → Type 0
HasCompensated q order s (ok b) = Compensation q order s b.state
HasCompensated q order s (err e) = ⊥

-- The step succeeded, in one of the three ways.
abbrev pub HasStepped : Quantity → String → Availability → Result Aggregate → Type 0
HasStepped q order s (ok b) = Allocation q order s b.state
HasStepped q order s (err e) = ⊥

module _ (c : Uuid) (q : Quantity) (order : String) (a : Aggregate) where
  -- A step for a named order with a positive quantity succeeds in one of the three ways.
  pub update_due_to_sales_order-HasStepped :
      IsStocked a
      → pos 1 ≤ℤ q.value
      → order ≢ ""
      → HasStepped q order a.state (update_due_to_sales_order c q order a)
  unfolding update_due_to_sales_order
  update_due_to_sales_order-HasStepped s p named =
      let positive = leb_ℤ_of_pos q.value p in
      let name : str_eq order "" ≡ false = ground (arith, eq_iff order "") in
      elim (Bool-cases (contains order a.state.held)) [
        | inl held ↦ rw (positive, held) (repeated held (rw name))
        | inr free ↦ elim (Bool-cases (ltb_ℤ a.state.quantity.value q.value)) [
          | inl short ↦
              rw (positive, free)
                (rw short
                  (refused free (not_le_of_ltb_ℤ a.state.quantity.value q.value short) refl))
          | inr enough ↦
              rw (positive, free)
                (rw enough (
                  let fits = le_of_not_ltb_ℤ a.state.quantity.value q.value enough in
                  moved free fits
                    (rw (name, free, sub64_taken a.state.quantity.value q.value p fits s.1))))
        ]
      ]

  -- A compensation of a positive quantity succeeds in one of the two ways, if what an order that
  -- holds stock gives back leaves an `int`.
  pub compensate_due_to_failed_allocation-HasCompensated :
      (contains order a.state.held ≡ true → InRange (a.state.quantity.value +ℤ q.value))
      → pos 1 ≤ℤ q.value
      → HasCompensated q order a.state (compensate_due_to_failed_allocation c q order a)
  unfolding compensate_due_to_failed_allocation
  compensate_due_to_failed_allocation-HasCompensated fits p =
      let positive = leb_ℤ_of_pos q.value p in
      elim (Bool-cases (contains order a.state.held)) [
        | inl held ↦
            rw (positive, held)
              (returned held (rw (add64_exact a.state.quantity.value q.value (fits held))))
        | inr free ↦
            rw (positive, free) (repeated free (rw (release-absent order a.state.held free)))
      ]

  -- A quantity that is not positive is refused by every operation, which records nothing.
  pub not_positive :
      q.value ≤ℤ pos 0
      → (update_due_to_sales_order c q order a ≡ err err_invalid_quantity)
        × (compensate_due_to_failed_allocation c q order a ≡ err err_invalid_quantity)
        × ((name : BeerName) → update_due_to_production_order c name q a ≡ err err_invalid_quantity)
        × ((beer : BeerId) (name : BeerName)
            → create_availability beer c name q ≡ err err_invalid_quantity)
  unfolding update_due_to_sales_order compensate_due_to_failed_allocation
      update_due_to_production_order create_availability
  not_positive h =
      let refused : leb_ℤ q.value (pos 0) ≡ true = ground arith in
      (rw refused, rw refused, λ name. rw refused, λ beer name. rw refused)
