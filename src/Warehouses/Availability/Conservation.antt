-- ===== src/Warehouses/Availability/Conservation.antt =====
-- Every movement of the stock keeps the books balanced, so a whole history does.
use cj_beer_company.Prelude.{
  ℕ, ◌+◌, ◌-◌, ◌^◌, ◌≤◌, String, ◌≡◌, ◌≢◌, refl, ap, ◌∙◌, true, List, [], ◌∷◌, All, arith, str_eq,
  eq_iff, Bool-cases, inl, inr, subst,
}
use cj_beer_company.Prelude.Int.{pos, ◌+ℤ◌, add64_exact, InRange, leb_ℤ_of_pos, int_laws}
use cj_beer_company.CustomTypes.{Uuid, new_quantity}
use cj_beer_company.Outcome.{Result, ok, err}
use cj_beer_company.Warehouses.SharedKernel.{BeerId, BeerName}
use cj_beer_company.Warehouses.Availability.{
  Aggregate, create_availability, update_due_to_production_order, update_due_to_sales_order,
  compensate_due_to_failed_allocation,
}
use cj_beer_company.Warehouses.Availability.Held.{contains}
use cj_beer_company.Warehouses.Availability.Stock.{
  IsStocked, HasStepped, HasCompensated, update_due_to_sales_order-HasStepped,
  compensate_due_to_failed_allocation-HasCompensated,
}
use cj_beer_company.Warehouses.Availability.Ledger.{
  IsBalanced, asked, held_total, Allocation-IsBalanced, Compensation-IsBalanced,
}

-- One movement of the stock: a production order, an allocation step, or a compensation.
pub data Movement : Type 0 where
  produce : BeerName → ℕ → Movement
  allocate : String → Movement
  give_back : String → Movement

abbrev pub produced : Movement → ℕ
produced (produce name n) = n
produced _ = 0

abbrev pub total_of : ℕ → List (Uuid × Movement) → ℕ
total_of total [] = total
total_of total ((c, m) ∷ ms) = total_of (total + produced m) ms

module _ (amount : String → ℕ) (unit : String) where
  -- Amounts are positive, and an order that is allocated to has a name.
  abbrev pub IsProper : Uuid × Movement → Type 0
  IsProper (c, produce name n) = 1 ≤ n
  IsProper (c, allocate o) = (1 ≤ amount o) × (o ≢ "")
  IsProper (c, give_back o) = 1 ≤ amount o

  abbrev pub move : Uuid → Movement → Aggregate → Result Aggregate
  move c (produce name n) a = update_due_to_production_order c name (new_quantity (pos n) unit) a
  move c (allocate o) a = update_due_to_sales_order c (asked amount unit o) o a
  move c (give_back o) a = compensate_due_to_failed_allocation c (asked amount unit o) o a

  -- The operation succeeded, and the books balance.
  abbrev pub HasBalance : ℕ → Result Aggregate → Type 0
  HasBalance total (ok b) = IsBalanced amount total b.state
  HasBalance total (err e) = ⊥

  module _ (total : ℕ) (c : Uuid) (a : Aggregate) (h : IsBalanced amount total a.state) where
    abbrev Fits64 : ℕ → Type 0
    Fits64 n = n ≤ 2 ^ 63 - 1

    stocked : Fits64 total → IsStocked a
    stocked fits = rw h.counted (omega (arith, fits, h.balanced))

    produce-HasBalance :
        (name : BeerName) (n : ℕ)
        → 1 ≤ n
        → Fits64 (total + n)
        → HasBalance (total + n) (move c (produce name n) a)
    unfolding update_due_to_production_order
    produce-HasBalance name n p fits =
        let sum : pos h.on_hand +ℤ pos n ≡ pos (h.on_hand + n) = omega int_laws in
        let range : InRange (pos h.on_hand +ℤ pos n) = rw sum (omega (arith, fits, h.balanced)) in
        rw (leb_ℤ_of_pos (pos n) (omega (arith, p))) (record {
          on_hand = h.on_hand + n;
          counted = rw h.counted (add64_exact (pos h.on_hand) (pos n) range ∙ sum);
          balanced = omega (arith, h.balanced);
          distinct = h.distinct;
        })

    allocate-HasBalance :
        (o : String)
        → 1 ≤ amount o
        → o ≢ ""
        → Fits64 total
        → HasBalance total (move c (allocate o) a)
    allocate-HasBalance o p named fits = go (move c (allocate o) a) (
        update_due_to_sales_order-HasStepped c (asked amount unit o) o a (stocked fits)
          (omega (arith, p)) named)
      where
        go :
            (r : Result Aggregate)
            → HasStepped (asked amount unit o) o a.state r
            → HasBalance total r
        go (ok b) step = Allocation-IsBalanced amount total unit o h step
        go (err e) step = step

    held_le :
        (o : String) (os : List String) → contains o os ≡ true → amount o ≤ held_total amount os
    unfolding contains
    held_le o [] there = cc
    held_le o (j ∷ js) there = elim (Bool-cases (str_eq j o)) [
      | inl same ↦
          let e : amount j ≡ amount o = ap amount (ground (arith, eq_iff j o)) in omega (arith, e)
      | inr other ↦ omega (arith, held_le o js (rw other at there))
    ]

    give_back-HasBalance :
        (o : String) → 1 ≤ amount o → Fits64 total → HasBalance total (move c (give_back o) a)
    give_back-HasBalance o p fits = go (move c (give_back o) a) (
        compensate_due_to_failed_allocation-HasCompensated c (asked amount unit o) o a range
          (omega (arith, p)))
      where
        range :
            contains o a.state.held ≡ true
            → InRange (a.state.quantity.value +ℤ (asked amount unit o).value)
        range held =
            let sum : pos h.on_hand +ℤ pos (amount o) ≡ pos (h.on_hand + amount o) =
              omega int_laws in
            rw (h.counted, sum) (omega (arith, fits, h.balanced, held_le o a.state.held held))

        go :
            (r : Result Aggregate)
            → HasCompensated (asked amount unit o) o a.state r
            → HasBalance total r
        go (ok b) step = Compensation-IsBalanced amount total unit o h step
        go (err e) step = step

    move-HasBalance :
        (m : Movement)
        → IsProper (c, m)
        → Fits64 (total + produced m)
        → HasBalance (total + produced m) (move c m a)
    move-HasBalance (produce name n) p fits = produce-HasBalance name n p fits
    move-HasBalance (allocate o) (p, named) fits =
        subst (λ n. HasBalance n (move c (allocate o) a)) (omega arith)
          (allocate-HasBalance o p named (omega (arith, fits)))
    move-HasBalance (give_back o) p fits =
        subst (λ n. HasBalance n (move c (give_back o) a)) (omega arith)
          (give_back-HasBalance o p (omega (arith, fits)))

  then_move : Result Aggregate → (Aggregate → Result Aggregate) → Result Aggregate
  then_move (ok b) k = k b
  then_move (err e) k = err e

  -- The movements in turn, each under its commit id, up to the first that fails.
  unfoldable pub move_all : List (Uuid × Movement) → Aggregate → Result Aggregate
  unfolding then_move
  move_all [] a = ok a
  move_all ((c, m) ∷ ms) a = then_move (move c m a) (move_all ms)

  -- A history begins with the first production of the beer.
  unfoldable pub history : BeerId → Uuid → BeerName → ℕ → List (Uuid × Movement) → Result Aggregate
  unfolding then_move
  history beer c name n ms =
      then_move (create_availability beer c name (new_quantity (pos n) unit)) (move_all ms)

  then_move-HasBalance :
      (before after : ℕ) (r : Result Aggregate) (k : Aggregate → Result Aggregate)
      → HasBalance before r
      → ((b : Aggregate) → IsBalanced amount before b.state → HasBalance after (k b))
      → HasBalance after (then_move r k)
  unfolding then_move
  then_move-HasBalance before after (ok b) k h next = next b h
  then_move-HasBalance before after (err e) k h next = h

  total_of_le : (total : ℕ) (ms : List (Uuid × Movement)) → total ≤ total_of total ms
  total_of_le total [] = omega arith
  total_of_le total ((c, m) ∷ ms) = omega (arith, total_of_le (total + produced m) ms)

  move_all-HasBalance :
      (ms : List (Uuid × Movement)) (total : ℕ) (a : Aggregate)
      → IsBalanced amount total a.state
      → All IsProper ms
      → total_of total ms ≤ 2 ^ 63 - 1
      → HasBalance (total_of total ms) (move_all ms a)
  unfolding move_all
  move_all-HasBalance [] total a h proper fits = h
  move_all-HasBalance ((c, m) ∷ ms) total a h proper fits =
      let grown = total + produced m in
      then_move-HasBalance grown (total_of grown ms) (move c m a) (move_all ms)
        (move-HasBalance total c a h m proper.0 (omega (arith, fits, total_of_le grown ms)))
        (λ b k. move_all-HasBalance ms grown b k proper.1 fits)

  create-HasBalance :
      (beer : BeerId) (c : Uuid) (name : BeerName) (n : ℕ)
      → 1 ≤ n
      → HasBalance n (create_availability beer c name (new_quantity (pos n) unit))
  unfolding create_availability
  create-HasBalance beer c name n p =
      rw (leb_ℤ_of_pos (pos n) (omega (arith, p)))
        (record { on_hand = n; counted = refl; balanced = omega arith; distinct = tt })

  -- Over any history of production orders, allocation steps and compensations, in any order and however
  -- often each is repeated, every operation succeeds, and the quantity on hand and the amounts of the
  -- orders that hold stock add up to all that was produced, where all amounts are positive and of one
  -- unit, each order asks for the same amount at every step and compensation, an order that is
  -- allocated to has a name, and all that is produced is at most 2^63 - 1.
  pub history-HasBalance :
      (beer : BeerId) (c : Uuid) (name : BeerName) (n : ℕ) (ms : List (Uuid × Movement))
      → 1 ≤ n
      → All IsProper ms
      → total_of n ms ≤ 2 ^ 63 - 1
      → HasBalance (total_of n ms) (history beer c name n ms)
  unfolding history
  history-HasBalance beer c name n ms p proper fits =
      then_move-HasBalance n (total_of n ms)
        (create_availability beer c name (new_quantity (pos n) unit)) (move_all ms)
        (create-HasBalance beer c name n p) (λ b h. move_all-HasBalance ms n b h proper fits)
