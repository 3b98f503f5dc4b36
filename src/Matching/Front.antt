-- ===== src/Matching/Front.antt =====
-- One round of the inner loop of `MatchOrders`, Orderbook Server/orderbook.cpp.
use simple_orderbook_v.Common.{◌-◌, min, ◌≡◌, ◌≢◌, [], ◌∷◌, ◌++◌, arith, leb, if◌then◌else◌}
use simple_orderbook_v.Outcome.{returned}
use simple_orderbook_v.Order.{Order, Quantity, fill, is_filled}
use simple_orderbook_v.Levels.{OrderPointer}
use simple_orderbook_v.Index.{Heap, write, erase_key}
use simple_orderbook_v.Matching.{Matching, pop_front, trade_of, match_front}

abbrev pub remaining : Heap → OrderPointer → Quantity
remaining heap p = (heap p).remaining_quantity

-- An order less `quantity`.
abbrev pub reduced : Order → Quantity → Order
reduced order quantity = record order { remaining_quantity = order.remaining_quantity - quantity }

abbrev pub traded : Heap → OrderPointer → OrderPointer → Quantity
traded heap bid ask = min (remaining heap bid) (remaining heap ask)

abbrev pub heap_after : Heap → OrderPointer → OrderPointer → Heap
heap_after heap bid ask =
    write (write heap bid (reduced (heap bid) (traded heap bid ask))) ask
      (reduced (heap ask) (traded heap bid ask))

-- The loop's variables after a round between two different orders.
unfoldable pub after_front : OrderPointer → OrderPointer → Matching → Matching
unfolding trade_of write erase_key
after_front bid ask m =
    let bid_done = leb (remaining m.heap bid) (remaining m.heap ask) in
    let ask_done = leb (remaining m.heap ask) (remaining m.heap bid) in
    let orders = if bid_done then erase_key (m.heap bid).order_id m.orders else m.orders in
    record {
      heap = heap_after m.heap bid ask;
      orders = if ask_done then erase_key (m.heap ask).order_id orders else orders;
      bids = if bid_done then pop_front m.bids else m.bids;
      asks = if ask_done then pop_front m.asks else m.asks;
      trades = m.trades ++ trade_of (m.heap bid) (m.heap ask) (traded m.heap bid ask) ∷ [];
    }

-- Neither `Fill` throws.
pub match_front_lem :
    (bid ask : OrderPointer) (m : Matching)
    → bid ≢ ask
    → match_front bid ask m ≡ returned (after_front bid ask m)
unfolding match_front after_front fill is_filled
match_front_lem bid ask m h = ground arith
