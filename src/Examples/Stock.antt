-- ===== src/Examples/Stock.antt =====
-- The stock of a beer that holds ten litres.
use cj_beer_company.Prelude.{String, ◌≡◌, ◌≢◌, refl, List, [], ◌∷◌, arith}
use cj_beer_company.Prelude.Int.{pos}
use cj_beer_company.CustomTypes.{Uuid, Quantity}
use cj_beer_company.Outcome.{ok, err}
use cj_beer_company.Warehouses.Availability.{
  Aggregate, empty, update_due_to_sales_order, compensate_due_to_failed_allocation,
}
use cj_beer_company.Warehouses.Availability.Stock.{IsStocked}
use cj_beer_company.Warehouses.Availability.Conservation.{
  Movement, produce, allocate, give_back, HasBalance, history, history-HasBalance,
}
use cj_beer_company.Warehouses.Availability.Idempotence.{
  state_or, update_due_to_sales_order-again, compensate-update,
}
use cj_beer_company.Examples.Data.{three_litres}

abbrev ten_litres : Aggregate
ten_litres = record {
  id = 2;
  version = 1;
  uncommitted = [];
  state = record {
    beer_id = record { value = 2 };
    beer_name = record { value = "ipa" };
    quantity = record { value = pos 10; unit_of_measure = "Lt" };
    held = [];
  };
}

abbrev seven_litres : Aggregate
seven_litres = elim (update_due_to_sales_order 5 three_litres "o" ten_litres) [
  | ok t ↦ t
  | err e ↦ ten_litres
]

ten_litres-IsStocked : IsStocked ten_litres
ten_litres-IsStocked = omega arith

named : ◌≢◌ {A = String} "o" ""
named = λ e. cc

named_p : ◌≢◌ {A = String} "p" ""
named_p = λ e. cc

abbrev nothing : Quantity
nothing = record { value = pos 0; unit_of_measure = "Lt" }

update_due_to_sales_order-again_example :
    IsStocked seven_litres
    × (state_or empty (update_due_to_sales_order 6 three_litres "o" seven_litres)
        ≡ seven_litres.state)
unfolding update_due_to_sales_order
update_due_to_sales_order-again_example =
    update_due_to_sales_order-again 5 6 three_litres "o" ten_litres {b = seven_litres}
      ten_litres-IsStocked (omega arith) named refl

compensate-update_example :
    state_or empty (compensate_due_to_failed_allocation 6 three_litres "o" seven_litres)
    ≡ ten_litres.state
unfolding update_due_to_sales_order
compensate-update_example =
    compensate-update 5 6 three_litres "o" ten_litres {b = seven_litres} ten_litres-IsStocked
      (omega arith) named refl (omega arith) refl

-- Every order asks for three litres; the second does not fit, and the first is driven twice.
abbrev movements : List (Uuid × Movement)
movements =
    (2, allocate "o")
    ∷ (3, allocate "o")
    ∷ (4, allocate "p")
    ∷ (5, produce (record { value = "ipa" }) 4)
    ∷ (6, give_back "o")
    ∷ (7, give_back "o")
    ∷ []

history-HasBalance_example :
    HasBalance
      (λ o. 3)
      "Lt"
      9
      (history (λ o. 3) "Lt" (record { value = 2 }) 1 (record { value = "ipa" }) 5 movements)
history-HasBalance_example =
    history-HasBalance (λ o. 3) "Lt" (record { value = 2 }) 1 (record { value = "ipa" }) 5 movements
      (omega arith)
      (
        (omega arith, named),
        (
          (omega arith, named),
          ((omega arith, named_p), (omega arith, (omega arith, (omega arith, tt)))),
        ),
      )
      (omega arith)
