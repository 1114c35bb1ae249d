-- ===== src/Sales/ReadModel/Settled.antt =====
-- What internal/sales/module.go asks of a read model, and what its clients may rely on: that a settled
-- order is shown as it was settled, whichever of its events came first.
use cj_beer_company.Prelude.{
  String, ◌≡◌, ◌∙◌, ap, true, false, Option, none, some, map, str_eq, ◌⊎◌, inl, inr,
}
use cj_beer_company.CustomTypes.{Time}
use cj_beer_company.Outcome.{ok, Exec, continue-eq_ok, ◌>>◌}
use cj_beer_company.Sales.ReadModel.{SalesOrderDto, SalesOrderRow, is_open_status}
use mathlib.Core.List.{Perm}
use mathlib.Core.List.Perm

-- salesOrderReadModel, without the listing.
pub record SalesOrderReadModel (S : Type 0) : Type 0 where
  pub create_sales_order : SalesOrderDto → Exec S Unit
  pub update_allocation_status : String → String → String → Exec S Unit
  pub get_sales_order : String → Exec S SalesOrderDto

-- What an order has beside its rows and its status.
pub record Header : Type 0 where
  pub id : String
  pub sales_order_number : String
  pub order_date : Time
  pub customer_id : String
  pub customer_name : String

abbrev pub header_of : SalesOrderDto → Header
header_of dto = record {
  id = dto.id;
  sales_order_number = dto.sales_order_number;
  order_date = dto.order_date;
  customer_id = dto.customer_id;
  customer_name = dto.customer_name;
}

-- The form in which a read model keeps an id, a date and a row of an order.
pub record Form : Type 0 where
  pub id_form : String → String
  pub date_form : Time → Time
  pub row_form : SalesOrderRow → SalesOrderRow

abbrev pub header_in : Form → SalesOrderDto → Header
header_in form order = record {
  id = form.id_form order.id;
  sales_order_number = order.sales_order_number;
  order_date = form.date_form order.order_date;
  customer_id = form.id_form order.customer_id;
  customer_name = order.customer_name;
}

-- What is shown is what is kept, the rows in any order.
abbrev pub IsShown : SalesOrderDto → Option SalesOrderDto → Type 0
IsShown dto none = ⊥
IsShown dto (some kept) =
    (header_of dto ≡ header_of kept)
    × Perm dto.rows kept.rows
    × (dto.allocation_status ≡ kept.allocation_status)
    × (dto.rejection_reason ≡ kept.rejection_reason)

-- A new order is pending; a status that has settled stays.
abbrev pub KeepsStatus : Option SalesOrderDto → SalesOrderDto → Type 0
KeepsStatus none after = after.allocation_status ≡ "pending"
KeepsStatus (some before) after =
    (is_open_status before.allocation_status ≡ true)
    ⊎ ((after.allocation_status ≡ before.allocation_status)
        × (after.rejection_reason ≡ before.rejection_reason))

abbrev pub IsCreated : Form → SalesOrderDto → Option SalesOrderDto → Option SalesOrderDto → Type 0
IsCreated form order before after =
    (kept : SalesOrderDto) × (after ≡ some kept)
    × (header_of kept ≡ header_in form order)
    × Perm kept.rows (map form.row_form order.rows)
    × KeepsStatus before kept

abbrev SameOrder : Option SalesOrderDto → SalesOrderDto → Type 0
SameOrder none kept = Unit {0}
SameOrder (some before) kept = (header_of kept ≡ header_of before) × (kept.rows ≡ before.rows)

abbrev pub IsUpdated : String → String → Option SalesOrderDto → Option SalesOrderDto → Type 0
IsUpdated status reason before after =
    (kept : SalesOrderDto) × (after ≡ some kept)
    × (kept.allocation_status ≡ status)
    × (kept.rejection_reason ≡ reason)
    × SameOrder before kept

pub record IsSalesOrderReadModel (form : Form) {S : Type 0} (m : SalesOrderReadModel S)
    : Type 0 where
  pub view : String → S → Option SalesOrderDto
  pub get-view :
      (id : String) (s : S) (dto : SalesOrderDto)
      → (m.get_sales_order id s).0 ≡ ok dto
      → IsShown dto (view id s)
  pub create-view :
      (order : SalesOrderDto) (s : S)
      → order.allocation_status ≡ ""
      → (m.create_sales_order order s).0 ≡ ok tt
      → IsCreated form order (view order.id s) (view order.id (m.create_sales_order order s).1)
  pub create-other :
      (order : SalesOrderDto) (id : String) (s : S)
      → str_eq (form.id_form order.id) (form.id_form id) ≡ false
      → (m.create_sales_order order s).0 ≡ ok tt
      → view id (m.create_sales_order order s).1 ≡ view id s
  pub update-view :
      (id status reason : String) (s : S)
      → (m.update_allocation_status id status reason s).0 ≡ ok tt
      → IsUpdated status reason
          (view id s)
          (view id (m.update_allocation_status id status reason s).1)
  pub update-other :
      (id other status reason : String) (s : S)
      → str_eq (form.id_form id) (form.id_form other) ≡ false
      → (m.update_allocation_status id status reason s).0 ≡ ok tt
      → view other (m.update_allocation_status id status reason s).1 ≡ view other s

module _ {S : Type 0} (form : Form) (m : SalesOrderReadModel S) (law : IsSalesOrderReadModel form m)
    (order : SalesOrderDto) (new : order.allocation_status ≡ "") (status reason : String) where
  -- The order as it was created and settled.
  abbrev pub IsSettled : SalesOrderDto → Type 0
  IsSettled dto =
      (header_of dto ≡ header_in form order)
      × Perm dto.rows (map form.row_form order.rows)
      × (dto.allocation_status ≡ status)
      × (dto.rejection_reason ≡ reason)

  abbrev created : Exec S Unit
  created = m.create_sales_order order

  abbrev settled : Exec S Unit
  settled = m.update_allocation_status order.id status reason

  shown_from :
      (dto kept : SalesOrderDto) (after : Option SalesOrderDto)
      → IsShown dto after
      → after ≡ some kept
      → IsSettled kept
      → IsSettled dto
  shown_from dto kept none shown same h = absurd shown
  shown_from dto kept (some found) (header, rows, state, why) same h =
      let is : found ≡ kept = cc in
      let (header', rows', state', why') = h in
      (
        header ∙ ap header_of is ∙ header',
        Perm.trans (rw is at rows) rows',
        state ∙ ap (λ d. d.allocation_status) is ∙ state',
        why ∙ ap (λ d. d.rejection_reason) is ∙ why',
      )

  IsUpdated-IsSettled :
      (before after : Option SalesOrderDto) (kept : SalesOrderDto)
      → before ≡ some kept
      → header_of kept ≡ header_in form order
      → Perm kept.rows (map form.row_form order.rows)
      → IsUpdated status reason before after
      → (settled_as : SalesOrderDto) × (after ≡ some settled_as) × IsSettled settled_as
  IsUpdated-IsSettled none after kept same header rows h = cc
  IsUpdated-IsSettled (some found) after kept same header rows
        (final, is, state, why, (header', rows')) =
      let eq : found ≡ kept = cc in
      (final, is, (header' ∙ ap header_of eq ∙ header, rw (rows', eq) rows, state, why))

  IsCreated-IsSettled :
      (before after : Option SalesOrderDto) (kept : SalesOrderDto)
      → before ≡ some kept
      → is_open_status status ≡ false
      → kept.allocation_status ≡ status
      → kept.rejection_reason ≡ reason
      → IsCreated form order before after
      → (settled_as : SalesOrderDto) × (after ≡ some settled_as) × IsSettled settled_as
  IsCreated-IsSettled none after kept same closed state why h = cc
  IsCreated-IsSettled (some found) after kept same closed state why
        (final, is, header, rows, keeps) =
      let eq : found ≡ kept = cc in
      let state' : found.allocation_status ≡ status = ap (λ d. d.allocation_status) eq ∙ state in
      let why' : found.rejection_reason ≡ reason = ap (λ d. d.rejection_reason) eq ∙ why in
      elim keeps [
        | inl open_ ↦ cc (rw (state', closed) at open_)
        | inr (same_status, same_reason) ↦
            (final, is, (header, rows, same_status ∙ state', same_reason ∙ why'))
      ]

  -- Over any read model that keeps the contract, an order that was created and settled is shown as it
  -- was created and as it was settled, whichever of the two was projected first.
  pub shown-settled :
      (s : S) (dto dto' : SalesOrderDto)
      → is_open_status status ≡ false
      → ((created >> settled) s).0 ≡ ok tt
      → (m.get_sales_order order.id ((created >> settled) s).1).0 ≡ ok dto
      → ((settled >> created) s).0 ≡ ok tt
      → (m.get_sales_order order.id ((settled >> created) s).1).0 ≡ ok dto'
      → IsSettled dto × IsSettled dto'
  shown-settled s dto dto' closed ran shown ran' shown' =
      let (u, one, two) = continue-eq_ok (created s).0 _ _ ran in
      let (u', one', two') = continue-eq_ok (settled s).0 _ _ ran' in
      let (kept, is, header, rows, keeps) = law.create-view order s new one in
      let (final, final_is, done) =
        IsUpdated-IsSettled _ _ kept is header rows
          (law.update-view order.id status reason (created s).1 two) in
      let (kept', is', state, why, same) = law.update-view order.id status reason s one' in
      let (final', final_is', done') =
        IsCreated-IsSettled _ _ kept' is' closed state why
          (law.create-view order (settled s).1 new two') in
      (
        shown_from dto final _ (law.get-view order.id _ dto (rw one at shown)) final_is done,
        shown_from dto' final' _ (law.get-view order.id _ dto' (rw one' at shown')) final_is' done',
      )
