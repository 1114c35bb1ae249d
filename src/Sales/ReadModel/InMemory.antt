-- ===== src/Sales/ReadModel/InMemory.antt =====
-- The in-memory service keeps the contract of a read model.
use cj_beer_company.Prelude.{
  String, ◌≡◌, refl, false, Option, none, some, List, map, str_eq, inl, inr, Bool-cases, ◌∙◌, ap,
}
use cj_beer_company.Outcome.{ok, ok-injective}
use cj_beer_company.Dict.{lookup, lookup-insert, lookup-insert_self}
use cj_beer_company.Sales.ReadModel.{
  SalesOrderDto, SalesOrderRow, SalesOrderService, is_open_status, or_pending, upsert,
  create_sales_order_dto, set_status, update_allocation_status, or_not_found, get_sales_order,
}
use cj_beer_company.Sales.ReadModel.Settled.{
  SalesOrderReadModel, Form, IsShown, IsCreated, IsUpdated, IsSalesOrderReadModel,
}
use mathlib.Core.List.Perm

-- The service behind the interface of internal/sales/module.go; its methods return no error.
unfoldable pub in_memory_read_model : SalesOrderReadModel SalesOrderService
unfolding create_sales_order_dto update_allocation_status get_sales_order
in_memory_read_model = record {
  create_sales_order = λ order s. (ok tt, create_sales_order_dto order s);
  update_allocation_status =
      λ id status reason s. (ok tt, update_allocation_status id status reason s);
  get_sales_order = λ id s. (get_sales_order id s, s);
}

abbrev kept_row : SalesOrderRow → SalesOrderRow
kept_row row = row

abbrev as_given : Form
as_given = record { id_form = λ id. id; date_form = λ date. date; row_form = kept_row }

map-kept_row : (rows : List SalesOrderRow) → map kept_row rows ≡ rows
map-kept_row List.[] = refl
map-kept_row (List.◌∷◌ r rs) = ap (List.◌∷◌ r) (map-kept_row rs)

or_not_found-IsShown :
    (found : Option SalesOrderDto) (dto : SalesOrderDto)
    → or_not_found found ≡ ok dto
    → IsShown dto found
unfolding or_not_found
or_not_found-IsShown none dto h = cc
or_not_found-IsShown (some kept) dto h =
    let is = ok-injective h in rw is (refl, Perm.refl dto.rows, refl, refl)

upsert-IsCreated :
    (order : SalesOrderDto) (found : Option SalesOrderDto) (s : SalesOrderService)
    → order.allocation_status ≡ ""
    → IsCreated as_given order found (lookup order.id (upsert order found s).orders)
unfolding upsert
upsert-IsCreated order none s new = (
  record order { allocation_status = "pending" },
  lookup-insert_self order.id (or_pending order) s.orders ∙ rw new refl,
  refl,
  rw (map-kept_row order.rows) (Perm.refl order.rows),
  refl,
)
upsert-IsCreated order (some before) s new =
    elim (Bool-cases (is_open_status before.allocation_status)) [
      | inl open_ ↦ (
        record order { allocation_status = "pending" },
        lookup-insert_self order.id _ s.orders ∙ rw (open_, new) refl,
        refl,
        rw (map-kept_row order.rows) (Perm.refl order.rows),
        inl open_,
      )
      | inr closed ↦ (
        record order {
          allocation_status = before.allocation_status;
          rejection_reason = before.rejection_reason;
        },
        lookup-insert_self order.id _ s.orders ∙ rw closed refl,
        refl,
        rw (map-kept_row order.rows) (Perm.refl order.rows),
        inr (refl, refl),
      )
    ]

upsert-other :
    (order : SalesOrderDto) (found : Option SalesOrderDto) (id : String) (s : SalesOrderService)
    → str_eq order.id id ≡ false
    → lookup id (upsert order found s).orders ≡ lookup id s.orders
unfolding upsert
upsert-other order none id s other = lookup-insert order.id id _ s.orders ∙ rw other refl
upsert-other order (some before) id s other = lookup-insert order.id id _ s.orders ∙ rw other refl

set_status-IsUpdated :
    (id status reason : String) (found : Option SalesOrderDto) (s : SalesOrderService)
    → IsUpdated status reason found (lookup id (set_status id status reason found s).orders)
unfolding set_status
set_status-IsUpdated id status reason none s = (_, lookup-insert_self id _ s.orders, refl, refl, tt)
set_status-IsUpdated id status reason (some before) s =
    (_, lookup-insert_self id _ s.orders, refl, refl, (refl, refl))

set_status-other :
    (id other status reason : String) (found : Option SalesOrderDto) (s : SalesOrderService)
    → str_eq id other ≡ false
    → lookup other (set_status id status reason found s).orders ≡ lookup other s.orders
unfolding set_status
set_status-other id other status reason none s differs =
    lookup-insert id other _ s.orders ∙ rw differs refl
set_status-other id other status reason (some before) s differs =
    lookup-insert id other _ s.orders ∙ rw differs refl

-- The contract, with each row kept as it is.
pub in_memory-IsSalesOrderReadModel : IsSalesOrderReadModel as_given in_memory_read_model
unfolding in_memory_read_model get_sales_order create_sales_order_dto update_allocation_status
in_memory-IsSalesOrderReadModel = record {
  view = λ id s. lookup id s.orders;
  get-view = λ id s dto h. or_not_found-IsShown (lookup id s.orders) dto h;
  create-view = λ order s new h. upsert-IsCreated order (lookup order.id s.orders) s new;
  create-other = λ order id s other h. upsert-other order (lookup order.id s.orders) id s other;
  update-view =
      λ id status reason s h. set_status-IsUpdated id status reason (lookup id s.orders) s;
  update-other = λ id other status reason s differs h.
      set_status-other id other status reason (lookup id s.orders) s differs;
}
