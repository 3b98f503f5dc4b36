-- ===== src/Order.antt =====
-- The data of Orderbook Server/orderbook.cpp: order types, sides, orders, modifications, trades.
use simple_orderbook_v.Common.{ℕ, ◌+◌, ◌-◌, ◌%◌, ◌^◌, Bool, List, ℤ, ltb, ◌==◌, if◌then◌else◌}
use simple_orderbook_v.Outcome.{Outcome, returned, threw, logic_error}

pub data OrderType : Type 0 where
  good_till_cancel fill_and_kill : OrderType

pub data Side : Type 0 where
  buy sell : Side

-- `int32_t`
abbrev pub Price : Type 0
Price = ℤ

-- `uint32_t`
abbrev pub Quantity : Type 0
Quantity = ℕ

-- `uint64_t`
abbrev pub OrderId : Type 0
OrderId = ℕ

abbrev pub is_fill_and_kill : OrderType → Bool
is_fill_and_kill good_till_cancel = Bool.false
is_fill_and_kill fill_and_kill = Bool.true

pub record Order : Type 0 where
  pub order_type : OrderType
  pub order_id : OrderId
  pub side : Side
  pub price : Price
  pub initial_quantity : Quantity
  pub remaining_quantity : Quantity

-- The constructor `Order(orderType, orderID, side, price, quantity)`.
unfoldable pub new_order : OrderType → OrderId → Side → Price → Quantity → Order
new_order order_type order_id side price quantity = record {
  order_type = order_type;
  order_id = order_id;
  side = side;
  price = price;
  initial_quantity = quantity;
  remaining_quantity = quantity;
}

-- `uint32_t` subtraction, which wraps.
unfoldable pub filled_quantity : Order → Quantity
filled_quantity order = (order.initial_quantity + 2 ^ 32 - order.remaining_quantity) % 2 ^ 32

unfoldable pub is_filled : Order → Bool
is_filled order = order.remaining_quantity == 0

unfoldable pub fill : Order → Quantity → Outcome Order
fill order quantity =
    if ltb order.remaining_quantity quantity
    then threw logic_error
    else returned (record order { remaining_quantity = order.remaining_quantity - quantity })

pub record OrderModify : Type 0 where
  pub order_id : OrderId
  pub price : Price
  pub side : Side
  pub quantity : Quantity

-- The order that `make_shared` builds; where it is put is a matter of the caller.
unfoldable pub to_order : OrderModify → OrderType → Order
unfolding new_order
to_order modify order_type =
    new_order order_type modify.order_id modify.side modify.price modify.quantity

pub record TradeInfo : Type 0 where
  pub order_id : OrderId
  pub price : Price
  pub quantity : Quantity

pub record Trade : Type 0 where
  pub bid_trade : TradeInfo
  pub ask_trade : TradeInfo

pub record LevelInfo : Type 0 where
  pub price : Price
  pub quantity : Quantity

pub record OrderbookLevelInfos : Type 0 where
  pub bids : List LevelInfo
  pub asks : List LevelInfo
