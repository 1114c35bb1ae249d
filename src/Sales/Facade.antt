-- ===== src/Sales/Facade.antt =====
-- internal/sales/facade.go: the payload of a request becomes a command. Reading goes through to the
-- read model.
pub mod Accepted
use cj_beer_company.Prelude.{
  String, Bool, true, false, Option, none, some, List, [], ◌∷◌, ◌==◌, if◌then◌else◌,
}
use cj_beer_company.Prelude.Text.{is_empty}
use cj_beer_company.CustomTypes.{Uuid, UuidCodec, Time, Quantity, Price, Page}
use cj_beer_company.Outcome.{Result, ok, err, invalid, Exec, pure, lift, ◌>>=◌, ◌>>◌}
use cj_beer_company.Muflone.ServiceBus.{ServiceBus, MessageType, send}
use cj_beer_company.Sales.SharedKernel.{SalesOrderId, SalesOrderRowDto}
use cj_beer_company.Sales.Commands.{
  SalesCommand, CreateSalesOrder, create_order, new_create_sales_order,
}
use cj_beer_company.Sales.ReadModel.{SalesOrderDto}
use Prim.Native.String.{◌++◌ as ◌<>◌}

pub record SalesOrderRowJson : Type 0 where
  pub beer_id : String
  pub beer_name : String
  pub quantity : Quantity
  pub price : Price

pub record SalesOrderJson : Type 0 where
  pub id : String
  pub sales_order_number : String
  pub order_date : Time
  pub customer_id : String
  pub customer_name : String
  pub rows : List SalesOrderRowJson

-- The read side; Q is the state of the read model.
pub record SalesOrderQueries (Q : Type 0) : Type 0 where
  pub get_sales_order : String → Exec Q SalesOrderDto
  pub get_sales_orders : Page → Exec Q (List SalesOrderDto)

-- The ids that the three calls of uuid.New return, and the reading of the clock.
pub record Draws : Type 0 where
  pub order : Uuid
  pub customer : Uuid
  pub commit : Uuid
  pub now : Time

or_invalid : String → Option Uuid → Result Uuid
or_invalid message none = err (invalid message)
or_invalid message (some id) = ok id

or_drawn : Uuid → Option Uuid → Uuid
or_drawn drawn none = drawn
or_drawn drawn (some id) = id

module _ (uuids : UuidCodec) where
  order_id_of : Draws → String → Result Uuid
  unfolding or_invalid is_empty
  order_id_of draws id =
      if is_empty id
      then ok draws.order
      else or_invalid ("invalid sales order id: " <> id) (uuids.parse id)

  with_row :
      SalesOrderRowJson
      → Result Uuid
      → Result (List SalesOrderRowDto)
      → Result (List SalesOrderRowDto)
  with_row row (err e) rest = err e
  with_row row (ok id) (err e) = err e
  with_row row (ok id) (ok rows) = ok (
      record {
        beer_id = record { value = id };
        beer_name = record { value = row.beer_name };
        quantity = row.quantity;
        price = row.price;
      }
      ∷ rows)

  -- the loop over the rows
  parse_rows : List SalesOrderRowJson → Result (List SalesOrderRowDto)
  unfolding with_row or_invalid
  parse_rows [] = ok []
  parse_rows (row ∷ rows) =
      with_row row (or_invalid ("invalid beer id: " <> row.beer_id) (uuids.parse row.beer_id))
        (parse_rows rows)

  command_of : Draws → SalesOrderJson → Uuid → List SalesOrderRowDto → CreateSalesOrder
  unfolding or_drawn
  command_of draws body order_id rows =
      new_create_sales_order (record { value = order_id }) draws.commit
        (record { value = body.sales_order_number })
        (record { value = if body.order_date == 0 then draws.now else body.order_date })
        (record { value = or_drawn draws.customer (uuids.parse body.customer_id) })
        (record { value = body.customer_name }) rows

  module _ {B : Type 0} (bus : ServiceBus B) (commands : MessageType SalesCommand) where
    -- Facade.CreateSalesOrder
    unfoldable pub request_sales_order : Draws → SalesOrderJson → Exec B String
    unfolding order_id_of parse_rows command_of send
    request_sales_order draws body = do
      order_id ← lift (order_id_of draws body.id)
      rows ← lift (parse_rows body.rows)
      send bus commands (create_order (command_of draws body order_id rows))
      pure (uuids.to_string order_id)
