-- ===== src/Header/Examples.antt =====
-- A market order of Orderbook Server/orderbook.h on a small run.
use simple_orderbook_v.Common.{◌≡◌, refl, List, [], ◌∷◌, pos}
use simple_orderbook_v.Outcome.{returned}
use simple_orderbook_v.Order.{buy}
use simple_orderbook_v.Header.{
  Order, good_till_cancel, new_order, new_market_order, invalid_price, fill, to_good_till_cancel,
}
use simple_orderbook_v.Header.Life.{Change, fills, converts, apply_all, Lived, apply_all-Lived}

abbrev changes : List Change
changes = fills 3 ∷ converts (pos 100) ∷ fills 2 ∷ []

abbrev market_order : Order
market_order = new_market_order 7 buy 10

apply_all-Lived_example : Lived market_order changes (apply_all changes market_order)
apply_all-Lived_example = apply_all-Lived changes market_order

converted_test :
    apply_all changes market_order
    ≡ returned (record market_order {
      order_type = good_till_cancel;
      price = pos 100;
      remaining_quantity = 5;
    })
unfolding new_market_order new_order invalid_price fill to_good_till_cancel
converted_test = refl
