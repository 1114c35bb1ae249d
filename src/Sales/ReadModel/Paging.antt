-- ===== src/Sales/ReadModel/Paging.antt =====
-- Listing orders by pages.
use cj_beer_company.Prelude.{
  ℕ, zero, suc, ◌≤◌, String, ◌≡◌, refl, ap, false, ◌&&◌, ◌||◌, List, [], ◌∷◌, map, take, drop,
  arith,
}
use cj_beer_company.Prelude.Int.{ℤ, pos, ltb_ℤ, pos_part, ◌≤ℤ◌}
use cj_beer_company.CustomTypes.{new_page}
use cj_beer_company.Outcome.{ok}
use cj_beer_company.Sales.ReadModel.{SalesOrderService, page_loop, get_sales_orders, order_at}

-- What NewPage makes of whatever a request asks for.
pub new_page-InBounds :
    (limit offset : ℤ)
    → (pos 1 ≤ℤ (new_page limit offset).limit)
      × ((new_page limit offset).limit ≤ℤ pos 200)
      × (pos 0 ≤ℤ (new_page limit offset).offset)
unfolding new_page
new_page-InBounds limit offset = ground arith

page_loop_lem :
    (s : SalesOrderService) (n : ℕ) (ids : List String)
    → page_loop s n ids ≡ map (order_at s) (take n ids)
unfolding page_loop
page_loop_lem s zero ids = refl
page_loop_lem s (suc n) [] = refl
page_loop_lem s (suc n) (id ∷ ids) = ap (λ t. order_at s id ∷ t) (page_loop_lem s n ids)

pub in_bounds :
    (limit offset : ℤ)
    → pos 1 ≤ℤ limit
    → pos 0 ≤ℤ offset
    → (ltb_ℤ limit (pos 0) || (ltb_ℤ offset (pos 0) && ltb_ℤ (pos 0) limit)) ≡ false
in_bounds limit offset h k = ground arith

-- Whatever limit and offset a request asks for, listing the page that NewPage makes of them does not
-- panic, and returns the orders from the offset on, at least room for 1 and at most 200, in the order
-- of their arrival.
pub get_sales_orders-new_page :
    (limit offset : ℤ) (s : SalesOrderService)
    → let page = new_page limit offset in
      (get_sales_orders page s
        ≡ ok (map (order_at s) (take (pos_part page.limit) (drop (pos_part page.offset) s.order))))
      × (1 ≤ pos_part page.limit)
      × (pos_part page.limit ≤ 200)
unfolding get_sales_orders
get_sales_orders-new_page limit offset s =
    let page = new_page limit offset in
    let (low, high, from) = new_page-InBounds limit offset in
    (
      rw (in_bounds page.limit page.offset low from)
          (ap ok (page_loop_lem s (pos_part page.limit) (drop (pos_part page.offset) s.order))),
      ground (arith, low),
      ground (arith, high),
    )
