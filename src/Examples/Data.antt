-- ===== src/Examples/Data.antt =====
-- The data of the examples.
use cj_beer_company.Prelude.{ℕ, zero, suc, String, ◌≡◌, refl, ap, Option, none, some, List, [], ◌∷◌}
use cj_beer_company.Prelude.Int.{pos}
use cj_beer_company.CustomTypes.{Uuid, UuidCodec, Quantity}
use cj_beer_company.Warehouses.Events.{SagaRowData}
use cj_beer_company.Warehouses.AllocationSaga.{Aggregate, start_order_allocation}

-- An id of 16 bytes is written with a mark for each unit, after a first mark.
abbrev pub marks : ℕ → String
marks zero = ""
marks (suc n) = String.◌∷◌ "u" (marks n)

abbrev pub count_marks : String → ℕ
count_marks String.[] = 0
count_marks (String.◌∷◌ c s) = suc (count_marks s)

abbrev pub parse_marks : String → Option Uuid
parse_marks String.[] = none
parse_marks (String.◌∷◌ c s) = some (count_marks s)

pub count_marks-marks : (n : ℕ) → count_marks (marks n) ≡ n
count_marks-marks zero = refl
count_marks-marks (suc n) = ap suc (count_marks-marks n)

abbrev pub codec : UuidCodec
codec = record {
  to_string = λ u. marks (suc u);
  parse = parse_marks;
  parse-to_string = λ u. ap some (count_marks-marks u);
}

abbrev pub beer_row : String → SagaRowData
beer_row b = record { beer_id = b; beer_name = "ipa"; quantity = pos 3; unit_of_measure = "Lt" }

abbrev pub two_rows : List SagaRowData
two_rows = beer_row "uu" ∷ beer_row "uuu" ∷ []

abbrev pub two_row_saga : Aggregate
two_row_saga = start_order_allocation codec 7 1 two_rows

abbrev pub three_litres : Quantity
three_litres = record { value = pos 3; unit_of_measure = "Lt" }
