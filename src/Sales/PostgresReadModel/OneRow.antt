-- ===== src/Sales/PostgresReadModel/OneRow.antt =====
-- The key of the table sales_order_rows is the order and the beer.
use cj_beer_company.Prelude.{
  String, ◌≡◌, refl, sym, ap, ◌∙◌, ◌≢◌, List, [], ◌∷◌, ◌++◌, eq_refl, All, All-split, All-weaken,
}
use cj_beer_company.Outcome.{ok, continue-eq_ok}
use cj_beer_company.Muflone.Database.{in_transaction-ok}
use cj_beer_company.Sales.ReadModel.{SalesOrderDto, SalesOrderRow}
use cj_beer_company.Sales.PostgresReadModel.{
  SalesDatabase, insert_rows, create_body, create_sales_order,
}
use cj_beer_company.Sales.PostgresReadModel.Tables.{
  SalesTables, rows_in, IsSalesDatabase, rows_in-append,
}

-- No beer stands in two rows.
abbrev pub NoBeerTwice : List SalesOrderRow → Type 0
NoBeerTwice [] = Unit {0}
NoBeerTwice (r ∷ rs) = All (λ x. x.beer_id ≢ r.beer_id) rs × NoBeerTwice rs

module _ {D : Type 0} (db : SalesDatabase D) (law : IsSalesDatabase db) where
  open law use {normal, canonical, transactional}

  abbrev IsNew : List SalesOrderRow → SalesOrderRow → Type 0
  IsNew rows r = All (λ x. x.beer_id ≢ canonical r.beer_id) rows

  abbrev rows_at : String → D → List SalesOrderRow
  rows_at id d = rows_in (canonical id) (transactional.draft d).rows

  insert_row-rows :
      (id : String) (r : SalesOrderRow) (d : D)
      → (db.insert_row id r d).0 ≡ ok tt
      → rows_at id (db.insert_row id r d).1 ≡ rows_at id d ++ normal r ∷ []
  unfolding rows_in
  insert_row-rows id r d h =
      ap (λ (t : SalesTables). rows_in (canonical id) t.rows) (law.insert_row-eq id r d h)
      ∙ rows_in-append (canonical id) (transactional.draft d).rows ((canonical id, normal r) ∷ [])
      ∙ rw (eq_refl (canonical id)) refl

  insert_rows-NoBeerTwice :
      (id : String) (rows : List SalesOrderRow) (d : D)
      → (insert_rows db id rows d).0 ≡ ok tt
      → All (IsNew (rows_at id d)) rows × NoBeerTwice rows
  unfolding insert_rows
  insert_rows-NoBeerTwice id [] d h = (tt, tt)
  insert_rows-NoBeerTwice id (r ∷ rs) d h =
      let (u, one, rest) = continue-eq_ok (db.insert_row id r d).0 _ _ h in
      let (new, twice) = insert_rows-NoBeerTwice id rs (db.insert_row id r d).1 rest in
      let apart : (s : SalesOrderRow)
          → IsNew (rows_at id (db.insert_row id r d).1) s
          → IsNew (rows_at id d) s × (s.beer_id ≢ r.beer_id) =
        λ s h'.
          let (before, (own, _)) =
            All-split (λ x. x.beer_id ≢ canonical s.beer_id) (rows_at id d) (normal r ∷ [])
              (rw (insert_row-rows id r d one) at h') in
          (before, λ same. own (law.normal-beer_id r ∙ ap canonical (sym same))) in
      (
        (law.insert_row-key id r d one, All-weaken _ rs (λ s h'. (apart s h').0) new),
        (All-weaken _ rs (λ s h'. (apart s h').1) new, twice),
      )

  -- An order is projected only if no beer stands in two of its rows: the rows of the read model have the
  -- order and the beer as their key, while nothing before it refuses such an order.
  pub create_sales_order-NoBeerTwice :
      (order : SalesOrderDto) (d : D)
      → (create_sales_order db order d).0 ≡ ok tt
      → NoBeerTwice order.rows
  unfolding create_sales_order create_body
  create_sales_order-NoBeerTwice order d h =
      let ((begun, (u, done), state), _) =
        in_transaction-ok db.tx transactional (create_body db order) d h in
      let (u', one, rest) = continue-eq_ok (db.upsert_order order (db.tx.begin d).1).0 _ _ done in
      let (u'', two, rest') =
        continue-eq_ok (db.delete_rows order.id (db.upsert_order order (db.tx.begin d).1).1).0 _ _
          rest in
      (insert_rows-NoBeerTwice order.id order.rows _ rest').1
