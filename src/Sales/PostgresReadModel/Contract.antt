-- ===== src/Sales/PostgresReadModel/Contract.antt =====
-- The durable read model keeps the contract of a read model.
use cj_beer_company.Prelude.{
  String, ◌≡◌, refl, sym, ap, ◌∙◌, false, ◌⊎◌, Option, none, some, List, [], ◌∷◌, ◌++◌, map, str_eq,
  inl, inr, append_assoc, append-nil,
}
use cj_beer_company.Outcome.{ok, continue-eq_ok, ok-injective, continue, pure, ◌>>=◌}
use cj_beer_company.Dict.{lookup, insert, lookup-insert, lookup-insert_self}
use cj_beer_company.Muflone.Database.{complete, scan_all_complete, in_transaction-ok}
use cj_beer_company.Sales.ReadModel.{SalesOrderDto, SalesOrderRow}
use cj_beer_company.Sales.ReadModel.Settled.{
  header_of, header_in, Form, IsShown, IsCreated, IsUpdated, KeepsStatus, IsSalesOrderReadModel,
}
use cj_beer_company.Sales.PostgresReadModel.{
  OrderRecord, SalesDatabase, dto_of, found_or_missing, insert_rows, create_body,
  create_sales_order, update_allocation_status, rows_of, get_sales_order, postgres_read_model,
}
use cj_beer_company.Sales.PostgresReadModel.Tables.{
  SalesTables, rows_in, rows_without, upserted, with_key, IsSalesDatabase, rows_in-append,
  rows_in-rows_without, rows_in-own, rows_in-others, rows_in-other_without,
}
use mathlib.Core.List.{Perm}
use mathlib.Core.List.Perm

module _ {D : Type 0} (db : SalesDatabase D) (law : IsSalesDatabase db) where
  open law use {normal, normal_date, canonical, transactional}

  abbrev pub form : Form
  form = record { id_form = canonical; date_form = normal_date; row_form = normal }

  abbrev kept_rows : String → List SalesOrderRow → List (String × SalesOrderRow)
  kept_rows id rows = map (λ r. (id, normal r)) rows

  abbrev with_rows_of : String → List SalesOrderRow → SalesTables → SalesTables
  with_rows_of id rows t = record { orders = t.orders; rows = t.rows ++ kept_rows id rows }

  insert_rows-draft :
      (id : String) (rows : List SalesOrderRow) (d : D)
      → (insert_rows db id rows d).0 ≡ ok tt
      → transactional.draft (insert_rows db id rows d).1
        ≡ with_rows_of (canonical id) rows (transactional.draft d)
  unfolding insert_rows
  insert_rows-draft id [] d h = rw append-nil refl
  insert_rows-draft id (r ∷ rs) d h =
      let (u, one, rest) = continue-eq_ok (db.insert_row id r d).0 _ _ h in
      rw one (
        insert_rows-draft id rs (db.insert_row id r d).1 rest
        ∙ ap (with_rows_of (canonical id) rs) (law.insert_row-eq id r d one)
        ∙ ap (λ rows. record { orders = (transactional.draft d).orders; rows = rows })
            (append_assoc (transactional.draft d).rows ((canonical id, normal r) ∷ [])
              (kept_rows (canonical id) rs)))

  abbrev created : SalesOrderDto → SalesTables → SalesTables
  created o t =
      let k = canonical o.id in
      record {
        orders = insert k (upserted canonical normal_date o (lookup k t.orders)) t.orders;
        rows = rows_without k t.rows ++ kept_rows k o.rows;
      }

  create_body-draft :
      (o : SalesOrderDto) (d : D)
      → (create_body db o d).0 ≡ ok tt
      → transactional.draft (create_body db o d).1 ≡ created o (transactional.draft d)
  unfolding create_body
  create_body-draft o d h =
      let (u, one, rest) = continue-eq_ok (db.upsert_order o d).0 _ _ h in
      let d₁ = (db.upsert_order o d).1 in
      let (u', two, rest') = continue-eq_ok (db.delete_rows o.id d₁).0 _ _ rest in
      let d₂ = (db.delete_rows o.id d₁).1 in
      rw (one, two)
        (insert_rows-draft o.id o.rows d₂ rest'
          ∙ ap (with_rows_of (canonical o.id) o.rows) (
              law.delete_rows-eq o.id d₁ two
              ∙ ap
                  (λ (t : SalesTables). record {
                    orders = t.orders;
                    rows = rows_without (canonical o.id) t.rows;
                  })
                  (law.upsert_order-eq o d one)))

  create-committed :
      (o : SalesOrderDto) (d : D)
      → (create_sales_order db o d).0 ≡ ok tt
      → transactional.committed (create_sales_order db o d).1
        ≡ created o (transactional.committed d)
  unfolding create_sales_order
  create-committed o d h =
      let ((begun, (u, done), state), _) =
        in_transaction-ok db.tx transactional (create_body db o) d h in
      state
      ∙ create_body-draft o (db.tx.begin d).1 done
      ∙ ap (created o) (transactional.begin-draft d begun)

  abbrev shown_as :
      String → List (String × SalesOrderRow) → Option OrderRecord → Option SalesOrderDto
  shown_as id rows none = none
  shown_as id rows (some r) = some (dto_of id r (rows_in id rows))

  abbrev view_of : String → D → Option SalesOrderDto
  view_of id d =
      let t = transactional.committed d in
      shown_as (canonical id) t.rows (lookup (canonical id) t.orders)

  rows_of-Perm :
      (id : String) (d : D) (xs : List SalesOrderRow)
      → (rows_of db id d).0 ≡ ok xs
      → Perm xs (rows_in (canonical id) (transactional.committed d).rows)
  unfolding rows_of
  rows_of-Perm id d xs h =
      let (rows, one, read) = continue-eq_ok (db.select_rows id d).0 _ _ h in
      let (all, end) = scan_all_complete rows.scanned rows.failure xs read in
      let whole : rows ≡ complete xs = cc (all, end) in
      law.select_rows-eq id d xs (one ∙ ap ok whole)

  found-IsShown :
      (id : String) (found : Option OrderRecord) (d : D) (dto : SalesOrderDto)
      → (continue
          (found_or_missing (with_key (canonical id) found) d).0
          (λ r. rows_of db id >>= λ rows. pure (dto_of r.0 r.1 rows))
          (found_or_missing (with_key (canonical id) found) d).1).0
        ≡ ok dto
      → IsShown dto (shown_as (canonical id) (transactional.committed d).rows found)
  unfolding found_or_missing dto_of
  found-IsShown id none d dto h = cc
  found-IsShown id (some r) d dto h =
      let (rows, one, done) = continue-eq_ok (rows_of db id d).0 _ _ h in
      let is = ok-injective done in rw (← is) (refl, rows_of-Perm id d rows one, refl, refl)

  get-IsShown :
      (id : String) (d : D) (dto : SalesOrderDto)
      → (get_sales_order db id d).0 ≡ ok dto
      → IsShown dto (view_of id d)
  unfolding get_sales_order
  get-IsShown id d dto h =
      let (found, one, rest) = continue-eq_ok (db.select_order id d).0 _ _ h in
      let d' = (db.select_order id d).1 in
      let held : found
          ≡ with_key (canonical id) (lookup (canonical id) (transactional.committed d').orders) =
        law.select_order-eq id d found one
        ∙ ap (λ (t : SalesTables). with_key (canonical id) (lookup (canonical id) t.orders))
            (sym (law.select_order-keeps id d)) in
      rw (← law.select_order-keeps id d) (found-IsShown id _ d' dto (rw held at rest))

  upserted-KeepsStatus :
      (o : SalesOrderDto) (id : String) (rows : List (String × SalesOrderRow))
      (found : Option OrderRecord) (own : List SalesOrderRow)
      → KeepsStatus
          (shown_as id rows found)
          (dto_of id (upserted canonical normal_date o found) own)
  unfolding dto_of
  upserted-KeepsStatus o id rows none own = refl
  upserted-KeepsStatus o id rows (some r) own = inr (refl, refl)

  upserted-header :
      (o : SalesOrderDto) (found : Option OrderRecord) (own : List SalesOrderRow)
      → header_of (dto_of (canonical o.id) (upserted canonical normal_date o found) own)
        ≡ header_in form o
  unfolding dto_of
  upserted-header o none own = refl
  upserted-header o (some r) own = refl

  own_rows :
      (o : SalesOrderDto) (t : SalesTables)
      → rows_in (canonical o.id) (created o t).rows ≡ map normal o.rows
  own_rows o t =
      let k = canonical o.id in
      rows_in-append k (rows_without k t.rows) (kept_rows k o.rows)
      ∙ rw (rows_in-rows_without k t.rows) (rows_in-own k normal o.rows)

  created-IsCreated :
      (o : SalesOrderDto) (t : SalesTables)
      → let k = canonical o.id in
        IsCreated form o
          (shown_as k t.rows (lookup k t.orders))
          (shown_as k (created o t).rows (lookup k (created o t).orders))
  unfolding dto_of
  created-IsCreated o t =
      let k = canonical o.id in
      let found = lookup k t.orders in
      let record_of = upserted canonical normal_date o found in
      (
        dto_of k record_of (map normal o.rows),
        rw (lookup-insert_self k record_of t.orders, own_rows o t) refl,
        upserted-header o found (map normal o.rows),
        Perm.refl (map normal o.rows),
        upserted-KeepsStatus o k t.rows found (map normal o.rows),
      )

  created-other :
      (o : SalesOrderDto) (id : String) (t : SalesTables)
      → str_eq (canonical o.id) id ≡ false
      → shown_as id (created o t).rows (lookup id (created o t).orders)
        ≡ shown_as id t.rows (lookup id t.orders)
  created-other o id t other =
      let k = canonical o.id in
      let rows : rows_in id (created o t).rows ≡ rows_in id t.rows =
        rows_in-append id (rows_without k t.rows) (kept_rows k o.rows)
        ∙ rw
            (
              rows_in-other_without id k t.rows other,
              rows_in-others id k normal o.rows other,
              append-nil,
            )
            refl in
      let orders : lookup id (created o t).orders ≡ lookup id t.orders =
        lookup-insert k id _ t.orders ∙ rw other refl in
      rw orders (same_shown id (created o t).rows t.rows (lookup id t.orders) rows)
    where
      same_shown :
          (id : String) (xs ys : List (String × SalesOrderRow)) (found : Option OrderRecord)
          → rows_in id xs ≡ rows_in id ys
          → shown_as id xs found ≡ shown_as id ys found
      same_shown id xs ys none h = refl
      same_shown id xs ys (some r) h = ap (λ rows. some (dto_of id r rows)) h

  shown_as-IsUpdated :
      (id status reason : String) (rows : List (String × SalesOrderRow))
      (found : Option OrderRecord) (r : OrderRecord)
      → (found ≡ none) ⊎ (found ≡ some r)
      → IsUpdated status reason (shown_as id rows found) (
          shown_as id rows
            (some (record r { allocation_status = status; rejection_reason = reason })))
  unfolding dto_of
  shown_as-IsUpdated id status reason rows none r h = (_, refl, refl, refl, tt)
  shown_as-IsUpdated id status reason rows (some q) r (inl bad) = cc
  shown_as-IsUpdated id status reason rows (some q) r (inr same) =
      let is : q ≡ r = cc in
      (_, refl, refl, refl, (ap (λ p. header_of (dto_of id p (rows_in id rows))) (sym is), refl))

  update-IsUpdated :
      (id status reason : String) (d : D)
      → (update_allocation_status db id status reason d).0 ≡ ok tt
      → IsUpdated status reason
          (view_of id d)
          (view_of id (update_allocation_status db id status reason d).1)
  unfolding update_allocation_status
  update-IsUpdated id status reason d h =
      let (r, was, is) = law.upsert_status-eq id status reason d h in
      let t = transactional.committed d in
      rw
        (
          is,
          lookup-insert_self (canonical id)
              (record r { allocation_status = status; rejection_reason = reason }) t.orders,
        )
        (shown_as-IsUpdated (canonical id) status reason t.rows (lookup (canonical id) t.orders) r
          was)

  update-other :
      (id other status reason : String) (d : D)
      → str_eq (canonical id) (canonical other) ≡ false
      → (update_allocation_status db id status reason d).0 ≡ ok tt
      → view_of other (update_allocation_status db id status reason d).1 ≡ view_of other d
  unfolding update_allocation_status
  update-other id other status reason d differs h =
      let (r, was, is) = law.upsert_status-eq id status reason d h in
      rw
        (
          is,
          lookup-insert (canonical id) (canonical other)
              (record r { allocation_status = status; rejection_reason = reason })
              (transactional.committed d).orders,
          differs,
        )
        refl

  -- The durable read model keeps the contract of a read model: an order is shown with the whole header
  -- and the rows that were projected, an id, a date and a row in the form of its columns; a settled
  -- status survives the projection of the order, and no operation touches another order.
  pub postgres-IsSalesOrderReadModel : IsSalesOrderReadModel form (postgres_read_model db)
  postgres-IsSalesOrderReadModel = record {
    view = view_of;
    get-view = get-IsShown;
    create-view =
        λ o d new h. rw (create-committed o d h) (created-IsCreated o (transactional.committed d));
    create-other = λ o id d other h.
        rw (create-committed o d h)
          (created-other o (canonical id) (transactional.committed d) other);
    update-view = update-IsUpdated;
    update-other = update-other;
  }
