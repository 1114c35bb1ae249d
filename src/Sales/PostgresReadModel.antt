-- ===== src/Sales/PostgresReadModel.antt =====
-- internal/sales/readmodel/services/postgres_sales_order_service.go: the durable read model. The server
-- runs the statements, and is an argument; the tables are those of migrations/versions.
pub mod Tables
pub mod Contract
pub mod Shown
pub mod OneRow
use cj_beer_company.Prelude.{ℕ, String, Option, none, some, List, [], ◌∷◌}
use cj_beer_company.CustomTypes.{Time, Page}
use cj_beer_company.Outcome.{Result, ok, err, not_found, Exec, pure, raise, lift, ◌>>=◌, ◌>>◌}
use cj_beer_company.Muflone.Database.{Rows, scan_all, Transactions, in_transaction}
use cj_beer_company.Sales.ReadModel.{SalesOrderDto, SalesOrderRow}
use cj_beer_company.Sales.ReadModel.Settled.{SalesOrderReadModel}

-- A row of the table sales_orders beside its key, without projected_at.
pub record OrderRecord : Type 0 where
  pub sales_order_number : String
  pub order_date : Time
  pub customer_id : String
  pub customer_name : String
  pub allocation_status : String
  pub rejection_reason : String

-- The statements of this file, as a server runs them; `select_order` gives none for sql.ErrNoRows, and
-- else the id that the row has, with its record.
pub record SalesDatabase (D : Type 0) : Type 0 where
  pub tx : Transactions D
  pub upsert_order : SalesOrderDto → Exec D Unit
  pub delete_rows : String → Exec D Unit
  pub insert_row : String → SalesOrderRow → Exec D Unit
  pub upsert_status : String → String → String → Exec D Unit
  pub delete_orders : Exec D Unit
  pub select_order : String → Exec D (Option (String × OrderRecord))
  pub select_orders : Page → Exec D (Rows (String × OrderRecord))
  pub select_rows : String → Exec D (Rows SalesOrderRow)

unfoldable pub dto_of : String → OrderRecord → List SalesOrderRow → SalesOrderDto
dto_of id r rows = record {
  id = id;
  sales_order_number = r.sales_order_number;
  order_date = r.order_date;
  customer_id = r.customer_id;
  customer_name = r.customer_name;
  rows = rows;
  allocation_status = r.allocation_status;
  rejection_reason = r.rejection_reason;
}

found_or_missing : {D : Type 0} → Option (String × OrderRecord) → Exec D (String × OrderRecord)
found_or_missing none = raise not_found
found_or_missing (some r) = pure r

module _ {D : Type 0} (db : SalesDatabase D) where
  -- the loop of CreateSalesOrder
  insert_rows : String → List SalesOrderRow → Exec D Unit
  insert_rows id [] = pure tt
  insert_rows id (row ∷ rows) = do db.insert_row id row; insert_rows id rows

  -- CreateSalesOrder between BeginTx and Commit
  create_body : SalesOrderDto → Exec D Unit
  unfolding insert_rows
  create_body order = do
    db.upsert_order order
    db.delete_rows order.id
    insert_rows order.id order.rows

  unfoldable pub create_sales_order : SalesOrderDto → Exec D Unit
  unfolding create_body in_transaction
  create_sales_order order = in_transaction db.tx (create_body order)

  unfoldable pub reset : Exec D Unit
  reset = db.delete_orders

  unfoldable pub update_allocation_status : String → String → String → Exec D Unit
  update_allocation_status id status reason = db.upsert_status id status reason

  rows_of : String → Exec D (List SalesOrderRow)
  unfolding scan_all
  rows_of id = do rows ← db.select_rows id; lift (scan_all rows.scanned rows.failure)

  unfoldable pub get_sales_order : String → Exec D SalesOrderDto
  unfolding found_or_missing rows_of dto_of
  get_sales_order id = do
    found ← db.select_order id
    r ← found_or_missing found
    rows ← rows_of id
    pure (dto_of r.0 r.1 rows)

  -- the last loop of GetSalesOrders
  with_rows : List (String × OrderRecord) → Exec D (List SalesOrderDto)
  unfolding rows_of dto_of
  with_rows [] = pure []
  with_rows ((id, r) ∷ orders) = do
    rows ← rows_of id
    rest ← with_rows orders
    pure (dto_of id r rows ∷ rest)

  unfoldable pub get_sales_orders : Page → Exec D (List SalesOrderDto)
  unfolding with_rows scan_all
  get_sales_orders page = do
    rows ← db.select_orders page
    orders ← lift (scan_all rows.scanned rows.failure)
    with_rows orders

  abbrev pub postgres_read_model : SalesOrderReadModel D
  postgres_read_model = record {
    create_sales_order = create_sales_order;
    update_allocation_status = update_allocation_status;
    get_sales_order = get_sales_order;
  }
