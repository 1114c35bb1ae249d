-- ===== src/Sales/Facade/Accepted.antt =====
-- A request is refused before anything is sent, or becomes one command for its order.
use cj_beer_company.Prelude.{
  suc, String, ◌≡◌, refl, ap, Option, none, some, List, [], ◌∷◌, length, Bool-cases, inl, inr,
}
use cj_beer_company.Prelude.Text.{is_empty}
use cj_beer_company.CustomTypes.{Uuid, UuidCodec}
use cj_beer_company.Outcome.{invalid, Result, ok, err, Result-cases, pure, ◌>>◌}
use cj_beer_company.Muflone.ServiceBus.{ServiceBus, MessageType, send}
use cj_beer_company.Sales.SharedKernel.{SalesOrderRowDto}
use cj_beer_company.Sales.Commands.{SalesCommand, CreateSalesOrder, create_order}
use cj_beer_company.Sales.Facade.{
  SalesOrderRowJson, SalesOrderJson, Draws, or_invalid, order_id_of, with_row, parse_rows,
  command_of, request_sales_order,
}

-- An error is a violation of a rule, for the caller to mend.
abbrev IsRefusal : {A : Type 0} → Result A → Type 0
IsRefusal (ok a) = Unit {0}
IsRefusal (err e) = (message : String) × (e ≡ invalid message)

or_invalid-IsRefusal : (message : String) (o : Option Uuid) → IsRefusal (or_invalid message o)
unfolding or_invalid
or_invalid-IsRefusal message none = (message, refl)
or_invalid-IsRefusal message (some id) = tt

-- The rows that are there are as many as were asked for.
abbrev HasRows : List SalesOrderRowJson → Result (List SalesOrderRowDto) → Type 0
HasRows rows (ok dtos) = length dtos ≡ length rows
HasRows rows (err e) = (message : String) × (e ≡ invalid message)

module _ (uuids : UuidCodec) where
  order_id_of-IsRefusal : (draws : Draws) (id : String) → IsRefusal (order_id_of uuids draws id)
  unfolding order_id_of
  order_id_of-IsRefusal draws id = elim (Bool-cases (is_empty id)) [
    | inl drawn ↦ rw drawn tt
    | inr given ↦ rw given (or_invalid-IsRefusal _ (uuids.parse id))
  ]

  with_row-HasRows :
      (row : SalesOrderRowJson) (rows : List SalesOrderRowJson) (id : Result Uuid)
      (rest : Result (List SalesOrderRowDto))
      → IsRefusal id
      → HasRows rows rest
      → HasRows (row ∷ rows) (with_row uuids row id rest)
  unfolding with_row
  with_row-HasRows row rows (err e) rest h k = h
  with_row-HasRows row rows (ok id) (err e) h k = k
  with_row-HasRows row rows (ok id) (ok dtos) h k = ap suc k

  parse_rows-HasRows : (rows : List SalesOrderRowJson) → HasRows rows (parse_rows uuids rows)
  unfolding parse_rows
  parse_rows-HasRows [] = refl
  parse_rows-HasRows (row ∷ rows) =
      with_row-HasRows row rows _ (parse_rows uuids rows)
        (or_invalid-IsRefusal _ (uuids.parse row.beer_id)) (parse_rows-HasRows rows)

  module _ {B : Type 0} (bus : ServiceBus B) (commands : MessageType SalesCommand) where
    -- The two ways in which a request ends.
    pub data Answer (body : SalesOrderJson) (b : B) (r : Result String × B) : Type 0 where
      -- a rule is violated, and the bus is as it was
      refused : (message : String) → r ≡ (err (invalid message), b) → Answer body b r
      -- one command was handed to the bus, addressed to the order whose id is returned
      sent :
          (command : CreateSalesOrder)
          → command.base.aggregate_id ≡ command.sales_order_id.value
          → command.sales_order_number.value ≡ body.sales_order_number
          → command.customer_name.value ≡ body.customer_name
          → length command.rows ≡ length body.rows
          → r
            ≡ (send bus commands (create_order command)
                  >> pure (uuids.to_string command.sales_order_id.value))
                b
          → Answer body b r

    -- Whatever the request is, it is refused for a violated rule with nothing sent, or one command is
    -- handed to the bus: it is addressed to the order whose id is returned, has the number and the
    -- name of the request, and a row for each of its rows.
    pub request_sales_order-Answer :
        (draws : Draws) (body : SalesOrderJson) (b : B)
        → Answer body b (request_sales_order uuids bus commands draws body b)
    unfolding request_sales_order command_of
    request_sales_order-Answer draws body b =
        elim (Result-cases (order_id_of uuids draws body.id)) [
          | inr (e, bad) ↦
              let (message, is) = rw bad at (order_id_of-IsRefusal draws body.id) in
              refused message (rw (bad, is) refl)
          | inl (id, good) ↦ elim (Result-cases (parse_rows uuids body.rows)) [
            | inr (e, bad) ↦
                let (message, is) = rw bad at (parse_rows-HasRows body.rows) in
                refused message (rw (good, bad, is) refl)
            | inl (rows, parsed) ↦
                sent (command_of uuids draws body id rows) refl refl refl
                  (rw parsed at (parse_rows-HasRows body.rows)) (rw (good, parsed) refl)
          ]
        ]
