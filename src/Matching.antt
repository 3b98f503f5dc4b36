-- ===== src/Matching.antt =====
-- The inner loop of `Orderbook::MatchOrders`, Orderbook Server/orderbook.cpp: the orders at the front
-- of the best bid level and of the best ask level are filled against one another. The orders live on
-- a heap, and `fill_at` writes through the pointers.
pub mod Front
pub mod Fills
pub mod Loop
pub mod Priority
pub mod Volume
use simple_orderbook_v.Common.{ℕ, zero, suc, min, [], ◌∷◌, ◌++◌, List, if◌then◌else◌}
use simple_orderbook_v.Outcome.{Outcome, returned, out_of_fuel, ◌>>=◌}
use simple_orderbook_v.Order.{Order, Quantity, Trade, fill, is_filled}
use simple_orderbook_v.Levels.{OrderPointer, OrderPointers}
use simple_orderbook_v.Index.{Heap, Orders, write, erase_key}

abbrev pub Trades : Type 0
Trades = List Trade

-- The variables of the inner loop of `MatchOrders`: the lists of the two best levels, and what the
-- loop changes besides.
pub record Matching : Type 0 where
  pub heap : Heap
  pub orders : Orders
  pub bids : OrderPointers
  pub asks : OrderPointers
  pub trades : Trades

abbrev pub pop_front : OrderPointers → OrderPointers
pop_front [] = []
pop_front (x ∷ xs) = xs

-- `order->Fill(quantity)`
unfoldable pub fill_at : OrderPointer → Quantity → Matching → Outcome Matching
unfolding fill write
fill_at p quantity m = do
  order ← fill (m.heap p) quantity
  returned (record m { heap = write m.heap p order })

-- `if (bid->isFilled()) { bids.pop_front(); orders_.erase(bid->GetOrderID()); }`
unfoldable pub pop_filled_bid : OrderPointer → Matching → Matching
unfolding is_filled erase_key
pop_filled_bid bid m =
    if is_filled (m.heap bid)
    then record m { bids = pop_front m.bids; orders = erase_key (m.heap bid).order_id m.orders }
    else m

unfoldable pub pop_filled_ask : OrderPointer → Matching → Matching
unfolding is_filled erase_key
pop_filled_ask ask m =
    if is_filled (m.heap ask)
    then record m { asks = pop_front m.asks; orders = erase_key (m.heap ask).order_id m.orders }
    else m

unfoldable pub trade_of : Order → Order → Quantity → Trade
trade_of bid ask quantity = record {
  bid_trade = record { order_id = bid.order_id; price = bid.price; quantity = quantity };
  ask_trade = record { order_id = ask.order_id; price = ask.price; quantity = quantity };
}

unfoldable pub push_trade : OrderPointer → OrderPointer → Quantity → Matching → Matching
unfolding trade_of
push_trade bid ask quantity m = record m {
  trades = m.trades ++ trade_of (m.heap bid) (m.heap ask) quantity ∷ [];
}

-- The body of the inner loop.
unfoldable pub match_front : OrderPointer → OrderPointer → Matching → Outcome Matching
unfolding fill_at pop_filled_bid pop_filled_ask push_trade
match_front bid ask m = do
  let quantity = min (m.heap bid).remaining_quantity (m.heap ask).remaining_quantity
  m1 ← fill_at bid quantity m
  m2 ← fill_at ask quantity m1
  returned (push_trade bid ask quantity (pop_filled_ask ask (pop_filled_bid bid m2)))

-- The inner loop.
unfoldable pub match_queues : ℕ → Matching → Outcome Matching
match_queues zero m = out_of_fuel
match_queues (suc fuel) m = elim m.bids [
  | [] ↦ returned m
  | bid ∷ _ ↦ elim m.asks [
    | [] ↦ returned m
    | ask ∷ _ ↦ match_front bid ask m >>= match_queues fuel
  ]
]
