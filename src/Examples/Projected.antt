-- ===== src/Examples/Projected.antt =====
-- The two read models of Sales: a server with the tables in memory, and the in-memory service.
use cj_beer_company.Prelude.{
  String, ◌≡◌, refl, sym, ◌≢◌, ◌⊎◌, inl, inr, Bool, false, ◌||◌, Option, none, some, List, [], ◌∷◌,
  ◌++◌, All, str_eq, eq_iff, if◌then◌else◌, Bool-cases,
}
use cj_beer_company.Outcome.{ok, err, failed, ok-injective}
use cj_beer_company.Dict.{lookup, insert}
use cj_beer_company.Muflone.Database.{complete, complete-injective}
use cj_beer_company.Sales.ReadModel.{SalesOrderDto, SalesOrderRow, stub}
use cj_beer_company.Sales.ReadModel.Settled.{IsSalesOrderReadModel}
use cj_beer_company.Sales.PostgresReadModel.{
  OrderRecord, SalesDatabase, create_sales_order, update_allocation_status, get_sales_order,
  postgres_read_model,
}
use cj_beer_company.Sales.PostgresReadModel.Tables.{
  SalesTables, rows_in, rows_without, upserted, with_key, IsSalesDatabase,
}
use cj_beer_company.Sales.PostgresReadModel.Contract.{form, postgres-IsSalesOrderReadModel}
use cj_beer_company.Sales.PostgresReadModel.Shown.{IsSettledOrder, get_sales_order-settled}
use cj_beer_company.Sales.PostgresReadModel.OneRow.{NoBeerTwice, create_sales_order-NoBeerTwice}
use cj_beer_company.Examples.Data.{three_litres}
use mathlib.Core.List.Perm

record SalesServer : Type 0 where
  committed : SalesTables
  draft : SalesTables

has_beer : String → List SalesOrderRow → Bool
has_beer id [] = false
has_beer id (r ∷ rs) = str_eq r.beer_id id || has_beer id rs

has_beer-absent :
    (id : String) (rs : List SalesOrderRow) → has_beer id rs ≡ false → All (λ x. x.beer_id ≢ id) rs
unfolding has_beer
has_beer-absent id [] h = tt
has_beer-absent id (r ∷ rs) h = elim (Bool-cases (str_eq r.beer_id id)) [
  | inl same ↦ cc (rw same at h)
  | inr other ↦
      (λ same. cc (other, (eq_iff r.beer_id id).1 same), has_beer-absent id rs (rw other at h))
]

abbrev nobody : OrderRecord
nobody = record {
  sales_order_number = "";
  order_date = 0;
  customer_id = "";
  customer_name = "";
  allocation_status = "pending";
  rejection_reason = "";
}

abbrev or_nobody : Option OrderRecord → OrderRecord
or_nobody none = nobody
or_nobody (some r) = r

or_nobody-was : (found : Option OrderRecord) → (found ≡ none) ⊎ (found ≡ some (or_nobody found))
or_nobody-was none = inl refl
or_nobody-was (some r) = inr refl

abbrev row_added : String → SalesOrderRow → SalesServer → SalesServer
row_added id r d = record d { draft = record d.draft { rows = d.draft.rows ++ (id, r) ∷ [] } }

abbrev server : SalesDatabase SalesServer
unfolding lookup insert has_beer rows_in rows_without
server = record {
  tx = record {
    begin = λ d. (ok tt, record d { draft = d.committed });
    commit = λ d. (ok tt, record d { committed = d.draft });
    rollback = λ d. record d { draft = d.committed };
  };
  upsert_order = λ o d.
      let t = d.draft in
      (
        ok tt,
        record d {
          draft = record t {
            orders =
                insert o.id (upserted (λ id. id) (λ date. date) o (lookup o.id t.orders)) t.orders;
          };
        },
      );
  delete_rows =
      λ id d. (ok tt, record d { draft = record d.draft { rows = rows_without id d.draft.rows } });
  insert_row = λ id r d.
      if has_beer r.beer_id (rows_in id d.draft.rows)
      then (err (failed "unique"), d)
      else (ok tt, row_added id r d);
  upsert_status = λ id status reason d.
      let t = d.committed in
      let r = or_nobody (lookup id t.orders) in
      (
        ok tt,
        record d {
          committed = record t {
            orders =
                insert id (record r { allocation_status = status; rejection_reason = reason })
                  t.orders;
          };
        },
      );
  delete_orders = λ d. (ok tt, record d { committed = record { orders = []; rows = [] } });
  select_order = λ id d. (ok (with_key id (lookup id d.committed.orders)), d);
  select_orders = λ page d. (ok (complete d.committed.orders), d);
  select_rows = λ id d. (ok (complete (rows_in id d.committed.rows)), d);
}

insert_row-free :
    (id : String) (r : SalesOrderRow) (d : SalesServer)
    → (server.insert_row id r d).0 ≡ ok tt
    → (has_beer r.beer_id (rows_in id d.draft.rows) ≡ false)
      × ((server.insert_row id r d).1 ≡ row_added id r d)
unfolding server
insert_row-free id r d h = elim (Bool-cases (has_beer r.beer_id (rows_in id d.draft.rows))) [
  | inl taken ↦ cc (rw taken at h)
  | inr free ↦ (free, rw free refl)
]

unfoldable server-IsSalesDatabase : IsSalesDatabase server
unfolding server
server-IsSalesDatabase = record {
  normal = λ r. r;
  canonical = λ id. id;
  normal-beer_id = λ r. refl;
  normal_date = λ date. date;
  transactional = record {
    committed = λ d. d.committed;
    draft = λ d. d.draft;
    begin-keeps = λ d. refl;
    begin-draft = λ d h. refl;
    rollback-keeps = λ d. refl;
    commit-draft = λ d h. refl;
    commit-whole = λ d. inr refl;
  };
  upsert_order-eq = λ o d h. refl;
  delete_rows-eq = λ id d h. refl;
  insert_row-eq = λ id r d h. rw ((insert_row-free id r d h).1) refl;
  insert_row-key = λ id r d h. has_beer-absent r.beer_id _ (insert_row-free id r d h).0;
  upsert_status-eq = λ id status reason d h. (
    or_nobody (lookup id d.committed.orders),
    or_nobody-was (lookup id d.committed.orders),
    refl,
  );
  select_order-keeps = λ id d. refl;
  select_order-eq = λ id d found h. sym (ok-injective h);
  select_rows-eq = λ id d xs h. rw (complete-injective xs _ h) (Perm.refl _);
}

abbrev order : SalesOrderDto
order = record (stub "o") {
  sales_order_number = "2024-1";
  rows =
      record {
        beer_id = "uu";
        beer_name = "ipa";
        quantity = three_litres;
        price = record { value = 5; currency = "EUR" };
      }
      ∷ [];
}

abbrev empty : SalesServer
empty = record {
  committed = record { orders = []; rows = [] };
  draft = record { orders = []; rows = [] };
}

postgres-IsSalesOrderReadModel_example :
    IsSalesOrderReadModel (form server server-IsSalesDatabase) (postgres_read_model server)
postgres-IsSalesOrderReadModel_example =
    postgres-IsSalesOrderReadModel server server-IsSalesDatabase

create_sales_order-NoBeerTwice_example : NoBeerTwice order.rows
unfolding server create_sales_order lookup insert has_beer rows_in rows_without
create_sales_order-NoBeerTwice_example =
    create_sales_order-NoBeerTwice server server-IsSalesDatabase order empty refl

abbrev allocated : SalesOrderDto
allocated = record order { allocation_status = "allocated" }

get_sales_order-settled_example :
    IsSettledOrder server server-IsSalesDatabase order "allocated" "" allocated
    × IsSettledOrder server server-IsSalesDatabase order "allocated" "" allocated
unfolding create_sales_order update_allocation_status get_sales_order server lookup insert has_beer
    rows_in rows_without
get_sales_order-settled_example =
    get_sales_order-settled server server-IsSalesDatabase order "allocated" "" empty allocated
      allocated refl refl refl refl refl refl
