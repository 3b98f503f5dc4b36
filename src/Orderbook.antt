-- ===== src/Orderbook.antt =====
-- `class Orderbook` of Orderbook Server/orderbook.cpp (Orderbook/main.cpp and the client's copy have
-- the same text).
-- The outer `while (true)` of `MatchOrders` takes fuel. A read through a reference into an erased node
-- of `orders_`, which C++ leaves undefined, yields what the node held, and `dangling_reads` counts it.
pub mod Add
pub mod Addresses
pub mod Best
pub mod Cancel
pub mod Crossing
mod Examples
pub mod Infos
pub mod Invariant
pub mod Last
pub mod Meets
pub mod Modify
pub mod Observed
pub mod Refinement
pub mod Replay
pub mod Rest
pub mod RoundTrip
pub mod Session
pub mod Shows
pub mod Spec
pub mod View
pub mod Withdraw
use simple_orderbook_v.Common.{
  ℕ, zero, suc, ◌+◌, ◌%◌, ◌^◌, Bool, false, true, not, ◌&&◌, [], ◌∷◌, map, none, some, ltb_ℤ,
  if◌then◌else◌, length,
}
use simple_orderbook_v.Outcome.{Outcome, returned, undefined, out_of_fuel, ◌>>=◌}
use simple_orderbook_v.Order.{
  OrderModify, OrderId, Price, Quantity, Side, buy, sell, LevelInfo, OrderbookLevelInfos,
  is_fill_and_kill, to_order,
}
use simple_orderbook_v.Levels.{
  OrderPointer, OrderPointers, Levels, greater, less, update, push_back, remove,
}
use simple_orderbook_v.Index.{Heap, Orders, entry, lookup, contains, erase_key, insert, write}
use simple_orderbook_v.Matching.{Trades, match_queues}

pub record Orderbook : Type 0 where
  pub heap : Heap
  pub bids : Levels
  pub asks : Levels
  pub orders : Orders
  pub dangling_reads : ℕ

unfoldable pub can_match : Orderbook → Side → Price → Bool
can_match book buy price = elim book.asks [
  | [] ↦ false
  | (best_ask, _) ∷ _ ↦ not (ltb_ℤ price best_ask)
]
can_match book sell price = elim book.bids [
  | [] ↦ false
  | (best_bid, _) ∷ _ ↦ not (ltb_ℤ best_bid price)
]

-- The outer loop, `match_levels` on the two best levels of the book.
unfoldable pub match_levels : ℕ → Orderbook → Trades → Outcome (Trades × Orderbook)
match_levels zero book trades = out_of_fuel
match_levels (suc fuel) book trades = elim book.bids [
  | [] ↦ returned (trades, book)
  | (bid_price, bids) ∷ more_bids ↦ elim book.asks [
    | [] ↦ returned (trades, book)
    | (ask_price, asks) ∷ more_asks ↦ elim (ltb_ℤ bid_price ask_price) [
      | true ↦ returned (trades, book)
      | false ↦
          match_queues (suc (length bids + length asks)) (record {
            heap = book.heap;
            orders = book.orders;
            bids = bids;
            asks = asks;
            trades = trades;
          })
          >>= λ m.
              match_levels fuel
                (record book {
                  heap = m.heap;
                  orders = m.orders;
                  bids = (bid_price, m.bids) ∷ more_bids;
                  asks = (ask_price, m.asks) ∷ more_asks;
                })
                m.trades
    ]
  ]
]

-- `const auto& [order, orderIterator] = orders_.at(orderID)` is read three times after the entry
-- that it refers to is erased.
unfoldable pub cancel_order : OrderId → Orderbook → Outcome Orderbook
cancel_order id book = elim (lookup id book.orders) [
  | none ↦ returned book
  | some e ↦
      let order = book.heap e.order in
      let erased = erase_key id book.orders in
      let reads = book.dangling_reads + 3 in
      elim order.side [
        | sell ↦ (do
          asks ← remove less order.price e.location book.asks
          returned (record book { orders = erased; asks = asks; dangling_reads = reads }))
        | buy ↦ (do
          bids ← remove greater order.price e.location book.bids
          returned (record book { orders = erased; bids = bids; dangling_reads = reads }))
      ]
]

-- `if (order->GetOrderType() == OrderType::FillandKill) CancelOrder(order->GetOrderID());` for the
-- order at the front of the best level, which is undefined if that level is empty.
unfoldable pub kill_front : Levels → Orderbook → Outcome Orderbook
kill_front [] book = returned book
kill_front ((_, []) ∷ _) book = undefined
kill_front ((_, order ∷ _) ∷ _) book =
    if is_fill_and_kill (book.heap order).order_type
    then cancel_order (book.heap order).order_id book
    else returned book

unfoldable pub match_orders : ℕ → Orderbook → Outcome (Trades × Orderbook)
match_orders fuel book = do
  (trades, matched) ← match_levels fuel book []
  bids_done ← kill_front matched.bids matched
  asks_done ← kill_front bids_done.asks bids_done
  returned (trades, asks_done)

-- The order is put at the end of its level and into the index.
unfoldable pub rest_order : OrderPointer → Orderbook → Orderbook
unfolding update insert
rest_order p book = elim (book.heap p).side [
  | buy ↦ record book {
    bids = update greater (book.heap p).price (push_back p) book.bids;
    orders = insert (book.heap p).order_id (entry p) book.orders;
  }
  | sell ↦ record book {
    asks = update less (book.heap p).price (push_back p) book.asks;
    orders = insert (book.heap p).order_id (entry p) book.orders;
  }
]

unfoldable pub add_order : ℕ → OrderPointer → Orderbook → Outcome (Trades × Orderbook)
add_order fuel p book =
    if contains (book.heap p).order_id book.orders
    then returned ([], book)
    else if is_fill_and_kill (book.heap p).order_type
        && not (can_match book (book.heap p).side (book.heap p).price)
    then returned ([], book)
    else match_orders fuel (rest_order p book)

-- `MatchOrder`, which modifies an order: `fresh` is the address that `make_shared` returns. The type
-- of the order is read through a reference into the entry that `CancelOrder` has erased.
unfoldable pub modify_order :
    ℕ → OrderPointer → OrderModify → Orderbook → Outcome (Trades × Orderbook)
modify_order fuel fresh modify book = elim (lookup modify.order_id book.orders) [
  | none ↦ returned ([], book)
  | some existing ↦ (do
    cancelled ← cancel_order modify.order_id book
    let order_type = (cancelled.heap existing.order).order_type
    add_order fuel fresh (record cancelled {
      heap = write cancelled.heap fresh (to_order modify order_type);
      dangling_reads = cancelled.dangling_reads + 1;
    }))
]

unfoldable pub size : Orderbook → ℕ
size book = length book.orders

-- `std::accumulate` of `uint32_t`, which wraps.
unfoldable pub sum_remaining : Heap → Quantity → OrderPointers → Quantity
sum_remaining heap running_sum [] = running_sum
sum_remaining heap running_sum (p ∷ ps) =
    sum_remaining heap ((running_sum + (heap p).remaining_quantity) % 2 ^ 32) ps

unfoldable pub create_level_info : Heap → Price × OrderPointers → LevelInfo
unfolding sum_remaining
create_level_info heap (price, orders) = record {
  price = price;
  quantity = sum_remaining heap 0 orders;
}

unfoldable pub get_order_infos : Orderbook → OrderbookLevelInfos
unfolding create_level_info
get_order_infos book = record {
  bids = map (create_level_info book.heap) book.bids;
  asks = map (create_level_info book.heap) book.asks;
}

-- The book that the constructor makes, beside the orders on the heap.
unfoldable pub empty_orderbook : Heap → Orderbook
empty_orderbook heap = record { heap = heap; bids = []; asks = []; orders = []; dangling_reads = 0 }
