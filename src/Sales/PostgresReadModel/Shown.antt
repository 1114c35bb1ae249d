-- ===== src/Sales/PostgresReadModel/Shown.antt =====
-- What the durable read model shows of an order that was created and settled, in either order.
use cj_beer_company.Prelude.{String, ◌≡◌, ap, false, map}
use cj_beer_company.Outcome.{ok, Exec, ◌>>◌}
use cj_beer_company.Sales.ReadModel.{SalesOrderDto, is_open_status}
use cj_beer_company.Sales.ReadModel.Settled.{shown-settled, header_of, header_in}
use cj_beer_company.Sales.PostgresReadModel.{
  SalesDatabase, create_sales_order, update_allocation_status, get_sales_order, postgres_read_model,
}
use cj_beer_company.Sales.PostgresReadModel.Tables.{IsSalesDatabase}
use cj_beer_company.Sales.PostgresReadModel.Contract.{form, postgres-IsSalesOrderReadModel}
use mathlib.Core.List.{Perm}

module _ {D : Type 0} (db : SalesDatabase D) (law : IsSalesDatabase db) where
  -- Every field of the order is as it was given, an id and a date in the form of the columns; its rows,
  -- in that form too, are all there; and it has the status and the reason.
  abbrev pub IsSettledOrder : SalesOrderDto → String → String → SalesOrderDto → Type 0
  IsSettledOrder order status reason dto =
      (dto.id ≡ law.canonical order.id)
      × (dto.sales_order_number ≡ order.sales_order_number)
      × (dto.order_date ≡ law.normal_date order.order_date)
      × (dto.customer_id ≡ law.canonical order.customer_id)
      × (dto.customer_name ≡ order.customer_name)
      × Perm dto.rows (map law.normal order.rows)
      × (dto.allocation_status ≡ status)
      × (dto.rejection_reason ≡ reason)

  abbrev settle : SalesOrderDto → String → String → Exec D Unit
  settle order status reason = update_allocation_status db order.id status reason

  abbrev created_first : SalesOrderDto → String → String → Exec D Unit
  created_first order status reason = create_sales_order db order >> settle order status reason

  abbrev settled_first : SalesOrderDto → String → String → Exec D Unit
  settled_first order status reason = settle order status reason >> create_sales_order db order

  -- An order that was created, with no status of its own, and settled is shown by GetSalesOrder with all
  -- that it was created with, in the form of the columns, and as it was settled, whichever of
  -- CreateSalesOrder and UpdateAllocationStatus came first, where both and the query return no error.
  pub get_sales_order-settled :
      (order : SalesOrderDto) (status reason : String) (d : D) (dto dto' : SalesOrderDto)
      → order.allocation_status ≡ ""
      → is_open_status status ≡ false
      → (created_first order status reason d).0 ≡ ok tt
      → (get_sales_order db order.id (created_first order status reason d).1).0 ≡ ok dto
      → (settled_first order status reason d).0 ≡ ok tt
      → (get_sales_order db order.id (settled_first order status reason d).1).0 ≡ ok dto'
      → IsSettledOrder order status reason dto × IsSettledOrder order status reason dto'
  get_sales_order-settled order status reason d dto dto' new closed ran shown ran' shown' =
      let ((header, rows, is, why), (header', rows', is', why')) =
        shown-settled (form db law) (postgres_read_model db) (postgres-IsSalesOrderReadModel db law)
          order new status reason d dto dto' closed ran shown ran' shown' in
      (spelled dto header rows is why, spelled dto' header' rows' is' why')
    where
      spelled :
          (dto : SalesOrderDto)
          → header_of dto ≡ header_in (form db law) order
          → Perm dto.rows (map law.normal order.rows)
          → dto.allocation_status ≡ status
          → dto.rejection_reason ≡ reason
          → IsSettledOrder order status reason dto
      spelled dto header rows is why = (
        ap (λ h. h.id) header,
        ap (λ h. h.sales_order_number) header,
        ap (λ h. h.order_date) header,
        ap (λ h. h.customer_id) header,
        ap (λ h. h.customer_name) header,
        rows,
        is,
        why,
      )
