-- ===== src/Warehouses/Availability/Idempotence.antt =====
-- A repeated saga step moves nothing, and a compensation restores what an allocation took.
use cj_beer_company.Prelude.{String, ◌≡◌, ◌≢◌, sym, ap, ◌∙◌, true, false, subst, List, eq_refl}
use cj_beer_company.Prelude.Int.{pos, ◌≤ℤ◌, ◌+ℤ◌, ◌-ℤ◌, InRange, taken-InRange, int_laws}
use cj_beer_company.CustomTypes.{Uuid, Quantity}
use cj_beer_company.Outcome.{Result, ok, err}
use cj_beer_company.Warehouses.Availability.{
  Availability, Aggregate, empty, update_due_to_sales_order, compensate_due_to_failed_allocation,
}
use cj_beer_company.Warehouses.Availability.Held.{contains, hold, release-hold, contains-hold}
use cj_beer_company.Warehouses.Availability.Stock.{
  IsStocked, Allocation, repeated, refused, moved, HasStepped, Compensation, returned,
  HasCompensated, update_due_to_sales_order-HasStepped,
  compensate_due_to_failed_allocation-HasCompensated,
}

contains-hold_self : (order : String) (js : List String) → contains order (hold order js) ≡ true
contains-hold_self order js = contains-hold order order js ∙ rw (eq_refl order)

module _ {q : Quantity} {order : String} {s t : Availability} where
  holds_after :
      contains order s.held ≡ false
      → q.value ≤ℤ s.quantity.value
      → Allocation q order s t
      → contains order t.held ≡ true
  holds_after free fits (repeated held e) = cc
  holds_after free fits (refused _ short e) = absurd (short fits)
  holds_after free fits (moved _ _ e) = rw e (contains-hold_self order s.held)

  restored :
      contains order s.held ≡ false
      → q.value ≤ℤ s.quantity.value
      → Allocation q order s t
      → t.quantity.value +ℤ q.value ≡ s.quantity.value
  restored free fits (repeated held e) = cc
  restored free fits (refused _ short e) = absurd (short fits)
  restored free fits (moved _ _ e) =
      let back : s.quantity.value -ℤ q.value +ℤ q.value ≡ s.quantity.value = omega int_laws in
      rw e back

module _ {q : Quantity} {order : String} {s t u : Availability} where
  pub Allocation-idem : Allocation q order s t → Allocation q order t u → u ≡ t
  Allocation-idem first (repeated held e) = e
  Allocation-idem first (refused free short e) = e
  Allocation-idem (repeated held same) (moved free fits e) =
      cc (ap (λ (x : Availability). contains order x.held) same)
  Allocation-idem (refused _ short same) (moved free fits e) =
      absurd (short (subst (λ (x : Availability). q.value ≤ℤ x.quantity.value) same fits))
  Allocation-idem (moved free' fits' gone) (moved free fits e) =
      cc (ap (λ (x : Availability). contains order x.held) gone, contains-hold_self order s.held)

  given_back :
      contains order s.held ≡ false
      → q.value ≤ℤ s.quantity.value
      → Allocation q order s t
      → Compensation q order t u
      → u ≡ s
  given_back free fits step (repeated none_held e) = cc (holds_after free fits step)
  given_back free fits (repeated held same) (returned held' e) = cc
  given_back free fits (refused _ short same) (returned held' e) = absurd (short fits)
  given_back free fits (moved _ _ gone) (returned held' e) =
      let back : s.quantity.value -ℤ q.value +ℤ q.value ≡ s.quantity.value = omega int_laws in
      e ∙ rw (gone, back, release-hold order s.held free)

-- The stock after a step: what is left is still an amount on hand.
pub stocked_after :
    {q : Quantity} {order : String} {s t : Availability}
    → (pos 0 ≤ℤ s.quantity.value) × InRange s.quantity.value
    → pos 1 ≤ℤ q.value
    → Allocation q order s t
    → (pos 0 ≤ℤ t.quantity.value) × InRange t.quantity.value
stocked_after h p (repeated _ e) = rw e h
stocked_after h p (refused _ _ e) = rw e h
stocked_after {q} {s = s} h p (moved _ fits e) =
    let (r, n) = taken-InRange s.quantity.value q.value p fits h.1 in rw e (n, r)

-- The state of the aggregate that an operation returned.
abbrev pub state_or : Availability → Result Aggregate → Availability
state_or s (ok b) = b.state
state_or s (err e) = s

module _ (c d : Uuid) (q : Quantity) (order : String) (a : Aggregate) {b : Aggregate}
    (stocked : IsStocked a) (positive : pos 1 ≤ℤ q.value) (named : order ≢ "")
    (stepped : update_due_to_sales_order c q order a ≡ ok b) where
  first_step : Allocation q order a.state b.state
  first_step =
      rw stepped at (update_due_to_sales_order-HasStepped c q order a stocked positive named)

  -- A saga step driven twice, whichever way it went, has the effect of driving it once, and the
  -- quantity on hand stays in range.
  pub update_due_to_sales_order-again :
      IsStocked b × (state_or empty (update_due_to_sales_order d q order b) ≡ b.state)
  update_due_to_sales_order-again =
      let stocked' : IsStocked b = stocked_after stocked positive first_step in
      (
        stocked',
        second (update_due_to_sales_order d q order b)
            (update_due_to_sales_order-HasStepped d q order b stocked' positive named),
      )
    where
      second : (r : Result Aggregate) → HasStepped q order b.state r → state_or empty r ≡ b.state
      second (ok u) h = Allocation-idem first_step h
      second (err e) h = absurd h

  -- In a stock whose quantity is at least zero and in the range of int, an allocation of a positive amount
  -- that fits, to a named order that does not hold the beer yet, followed by the compensation of the same
  -- amount, restores the state exactly: the quantity with its unit, and the set of the holding orders.
  pub compensate-update :
      q.value ≤ℤ a.state.quantity.value
      → contains order a.state.held ≡ false
      → state_or empty (compensate_due_to_failed_allocation d q order b) ≡ a.state
  compensate-update fits free = second (compensate_due_to_failed_allocation d q order b) (
      compensate_due_to_failed_allocation-HasCompensated d q order b
        (λ _. subst InRange (sym (restored free fits first_step)) stocked.1) positive)
    where
      second :
          (r : Result Aggregate) → HasCompensated q order b.state r → state_or empty r ≡ a.state
      second (ok u) h = given_back free fits first_step h
      second (err e) h = absurd h
