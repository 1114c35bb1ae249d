-- ===== src/Sales/PostgresReadModel/Tables.antt =====
-- The tables sales_orders and sales_order_rows, and what the statements do to them.
use cj_beer_company.Prelude.{
  String, ◌≡◌, refl, ap, false, ◌⊎◌, ◌≢◌, Option, none, some, List, [], ◌∷◌, ◌++◌, map, str_eq,
  eq_refl, if◌then◌else◌, Bool-cases, inl, inr, arith, eq_iff, All,
}
use cj_beer_company.CustomTypes.{Time}
use cj_beer_company.Outcome.{ok}
use cj_beer_company.Dict.{Dict, lookup, insert}
use cj_beer_company.Muflone.Database.{complete, IsTransactional}
use cj_beer_company.Sales.ReadModel.{SalesOrderDto, SalesOrderRow}
use cj_beer_company.Sales.PostgresReadModel.{OrderRecord, SalesDatabase}
use mathlib.Core.List.{Perm}

-- The records by their key, and the rows beside that of their order.
pub record SalesTables : Type 0 where
  pub orders : Dict OrderRecord
  pub rows : List (String × SalesOrderRow)

-- WHERE sales_order_id = id
unfoldable pub rows_in : String → List (String × SalesOrderRow) → List SalesOrderRow
rows_in id [] = []
rows_in id ((k, r) ∷ rs) = let rest = rows_in id rs in if str_eq k id then r ∷ rest else rest

-- DELETE FROM sales_order_rows WHERE sales_order_id = id
unfoldable pub rows_without : String → List (String × SalesOrderRow) → List (String × SalesOrderRow)
rows_without id [] = []
rows_without id ((k, r) ∷ rs) =
    let rest = rows_without id rs in if str_eq k id then rest else (k, r) ∷ rest

-- INSERT … ON CONFLICT (id) DO UPDATE of CreateSalesOrder, with the defaults of the columns
abbrev pub upserted :
    (String → String) → (Time → Time) → SalesOrderDto → Option OrderRecord → OrderRecord
upserted canonical normal_date order none = record {
  sales_order_number = order.sales_order_number;
  order_date = normal_date order.order_date;
  customer_id = canonical order.customer_id;
  customer_name = order.customer_name;
  allocation_status = "pending";
  rejection_reason = "";
}
upserted canonical normal_date order (some r) = record {
  sales_order_number = order.sales_order_number;
  order_date = normal_date order.order_date;
  customer_id = canonical order.customer_id;
  customer_name = order.customer_name;
  allocation_status = r.allocation_status;
  rejection_reason = r.rejection_reason;
}

-- The columns id, sales_order_number, … of a SELECT, of a record that is under its key.
abbrev pub with_key : String → Option OrderRecord → Option (String × OrderRecord)
with_key key none = none
with_key key (some r) = some (key, r)

-- What is relied on in the server, for one session at a time. Its columns keep an id, a date and a row
-- in a form of their own: a uuid is found by its value, and read as its canonical text, whatever the
-- text that it was given by. A row has the key of its order and its beer. An order is without a number, a
-- customer and a date of its own until it is created. A statement that fails may leave anything in
-- an open transaction.
pub record IsSalesDatabase {D : Type 0} (db : SalesDatabase D) : Type 0 where
  pub normal : SalesOrderRow → SalesOrderRow
  pub canonical : String → String
  pub normal-beer_id : (r : SalesOrderRow) → (normal r).beer_id ≡ canonical r.beer_id
  pub normal_date : Time → Time
  pub transactional : IsTransactional SalesTables db.tx
  pub upsert_order-eq :
      (o : SalesOrderDto) (d : D)
      → (db.upsert_order o d).0 ≡ ok tt
      → transactional.draft (db.upsert_order o d).1 ≡ (
          let t = transactional.draft d in
          record {
            orders =
                insert
                  (canonical o.id)
                  (upserted canonical normal_date o (lookup (canonical o.id) t.orders))
                  t.orders;
            rows = t.rows;
          })
  pub delete_rows-eq :
      (id : String) (d : D)
      → (db.delete_rows id d).0 ≡ ok tt
      → transactional.draft (db.delete_rows id d).1 ≡ (
          let t = transactional.draft d in
          record { orders = t.orders; rows = rows_without (canonical id) t.rows })
  pub insert_row-eq :
      (id : String) (r : SalesOrderRow) (d : D)
      → (db.insert_row id r d).0 ≡ ok tt
      → transactional.draft (db.insert_row id r d).1 ≡ (
          let t = transactional.draft d in
          record { orders = t.orders; rows = t.rows ++ (canonical id, normal r) ∷ [] })
  pub insert_row-key :
      (id : String) (r : SalesOrderRow) (d : D)
      → (db.insert_row id r d).0 ≡ ok tt
      → All
          (λ x. x.beer_id ≢ canonical r.beer_id)
          (rows_in (canonical id) (transactional.draft d).rows)
  pub upsert_status-eq :
      (id status reason : String) (d : D)
      → (db.upsert_status id status reason d).0 ≡ ok tt
      → (r : OrderRecord) × ((lookup (canonical id) (transactional.committed d).orders ≡ none)
          ⊎ (lookup (canonical id) (transactional.committed d).orders ≡ some r))
        × (transactional.committed (db.upsert_status id status reason d).1 ≡ (
            let t = transactional.committed d in
            record {
              orders =
                  insert
                    (canonical id)
                    (record r { allocation_status = status; rejection_reason = reason })
                    t.orders;
              rows = t.rows;
            }))
  pub select_order-keeps :
      (id : String) (d : D)
      → transactional.committed (db.select_order id d).1 ≡ transactional.committed d
  pub select_order-eq :
      (id : String) (d : D) (found : Option (String × OrderRecord))
      → (db.select_order id d).0 ≡ ok found
      → found ≡ with_key (canonical id) (lookup (canonical id) (transactional.committed d).orders)
  pub select_rows-eq :
      (id : String) (d : D) (xs : List SalesOrderRow)
      → (db.select_rows id d).0 ≡ ok (complete xs)
      → Perm xs (rows_in (canonical id) (transactional.committed d).rows)

module _ (id : String) where
  pub rows_in-append :
      (xs ys : List (String × SalesOrderRow))
      → rows_in id (xs ++ ys) ≡ rows_in id xs ++ rows_in id ys
  unfolding rows_in
  rows_in-append [] ys = refl
  rows_in-append ((k, r) ∷ xs) ys = elim (Bool-cases (str_eq k id)) [
    | inl mine ↦ rw mine (ap (◌∷◌ r) (rows_in-append xs ys))
    | inr other ↦ rw other (rows_in-append xs ys)
  ]

  pub rows_in-rows_without :
      (xs : List (String × SalesOrderRow)) → rows_in id (rows_without id xs) ≡ []
  unfolding rows_in rows_without
  rows_in-rows_without [] = refl
  rows_in-rows_without ((k, r) ∷ xs) = elim (Bool-cases (str_eq k id)) [
    | inl mine ↦ rw mine (rows_in-rows_without xs)
    | inr other ↦ rw (other, other) (rows_in-rows_without xs)
  ]

  pub rows_in-own :
      (f : SalesOrderRow → SalesOrderRow) (rs : List SalesOrderRow)
      → rows_in id (map (λ r. (id, f r)) rs) ≡ map f rs
  unfolding rows_in
  rows_in-own f [] = refl
  rows_in-own f (r ∷ rs) = rw (eq_refl id) (ap (◌∷◌ (f r)) (rows_in-own f rs))

  pub rows_in-others :
      (j : String) (f : SalesOrderRow → SalesOrderRow) (rs : List SalesOrderRow)
      → str_eq j id ≡ false
      → rows_in id (map (λ r. (j, f r)) rs) ≡ []
  unfolding rows_in
  rows_in-others j f [] h = refl
  rows_in-others j f (r ∷ rs) h = rw h (rows_in-others j f rs h)

  pub rows_in-other_without :
      (j : String) (xs : List (String × SalesOrderRow))
      → str_eq j id ≡ false
      → rows_in id (rows_without j xs) ≡ rows_in id xs
  unfolding rows_in rows_without
  rows_in-other_without j [] h = refl
  rows_in-other_without j ((k, r) ∷ xs) h =
      ground (arith, rows_in-other_without j xs h, eq_iff k j, eq_iff k id, eq_iff j id, h)
