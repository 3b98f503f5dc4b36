-- ===== src/Header.antt =====
-- The order of the design that Orderbook Server/orderbook.h declares (Orderbook/header.h and Orderbook
-- Client/orderbook.h have the same text), with its market orders. The book that the header declares has
-- no body, and the header does not compile: it defines `TradeInfo` twice.
mod Examples
pub mod Life
use simple_orderbook_v.Common.{
  ℕ, ◌+◌, ◌-◌, ◌%◌, ◌^◌, Bool, true, false, not, ltb, ◌==◌, if◌then◌else◌, pos,
}
use simple_orderbook_v.Outcome.{Outcome, returned, threw, logic_error}
use simple_orderbook_v.Order.{Side, Price, Quantity, OrderId}

pub data OrderType : Type 0 where
  good_till_cancel fill_and_kill fill_or_kill good_for_day market : OrderType

abbrev pub is_market : OrderType → Bool
is_market good_till_cancel = false
is_market fill_and_kill = false
is_market fill_or_kill = false
is_market good_for_day = false
is_market market = true

-- `Constants::InvalidPrice`: `quiet_NaN()` of an integer type is `0`.
unfoldable pub invalid_price : Price
invalid_price = pos 0

pub record Order : Type 0 where
  pub order_type : OrderType
  pub order_id : OrderId
  pub side : Side
  pub price : Price
  pub initial_quantity : Quantity
  pub remaining_quantity : Quantity

-- The constructor `Order(orderType, orderId, side, price, quantity)`.
unfoldable pub new_order : OrderType → OrderId → Side → Price → Quantity → Order
new_order order_type order_id side price quantity = record {
  order_type = order_type;
  order_id = order_id;
  side = side;
  price = price;
  initial_quantity = quantity;
  remaining_quantity = quantity;
}

-- The constructor `Order(orderId, side, quantity)`.
unfoldable pub new_market_order : OrderId → Side → Quantity → Order
unfolding new_order invalid_price
new_market_order order_id side quantity = new_order market order_id side invalid_price quantity

-- `uint32_t` subtraction, which wraps.
unfoldable pub filled_quantity : Order → Quantity
filled_quantity order = (order.initial_quantity + 2 ^ 32 - order.remaining_quantity) % 2 ^ 32

unfoldable pub is_filled : Order → Bool
is_filled order = order.remaining_quantity == 0

unfoldable pub fill : Quantity → Order → Outcome Order
fill quantity order =
    if ltb order.remaining_quantity quantity
    then threw logic_error
    else returned (record order { remaining_quantity = order.remaining_quantity - quantity })

unfoldable pub to_good_till_cancel : Price → Order → Outcome Order
to_good_till_cancel price order =
    if not (is_market order.order_type)
    then threw logic_error
    else returned (record order { price = price; order_type = good_till_cancel })
