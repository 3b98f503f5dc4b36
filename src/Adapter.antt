-- ===== src/Adapter.antt =====
-- `class OrderbookNetworkAdapter` of Orderbook Server/orderbook_adapter.h, which gives each order an ID of
-- its own. The lock of `ThreadSafeOrderbook` makes each call of the book one step; `next_address` is
-- where the next `make_shared` puts its order. An ID that was given is not given back where the call of
-- the book does not return.
mod Examples
pub mod Ids
pub mod Lock
pub mod Sessions
use simple_orderbook_v.Common.{ℕ, suc, ◌+◌, ◌%◌, ◌^◌, none, some, signed32}
use simple_orderbook_v.Outcome.{Outcome, returned, unmodelled, ◌>>=◌}
use simple_orderbook_v.Messages.{AddOrderRequest, CancelOrderRequest, ModifyOrderRequest}
use simple_orderbook_v.Order.{OrderId, OrderModify, OrderbookLevelInfos, new_order}
use simple_orderbook_v.Levels.{OrderPointer}
use simple_orderbook_v.Index.{Heap, write}
use simple_orderbook_v.Matching.{Trades}
use simple_orderbook_v.Orderbook.{
  Orderbook, empty_orderbook, add_order, cancel_order, modify_order, get_order_infos, size,
}
use simple_orderbook_v.Server.Handlers.{side_of, order_type_of}

pub record OrderbookNetworkAdapter : Type 0 where
  pub orderbook : Orderbook
  pub next_order_id : OrderId
  pub next_address : OrderPointer

unfoldable pub new_adapter : Heap → OrderPointer → OrderbookNetworkAdapter
new_adapter heap address = record {
  orderbook = empty_orderbook heap;
  next_order_id = 1;
  next_address = address;
}

-- `nextOrderId_` is a `uint64_t`.
unfoldable pub process_add_order_request :
    ℕ
    → AddOrderRequest
    → OrderbookNetworkAdapter
    → Outcome ((OrderId × Trades) × OrderbookNetworkAdapter)
process_add_order_request fuel request a = elim (side_of request.side) [
  | none ↦ unmodelled
  | some side ↦ (do
    let order_id = a.next_order_id
    let order =
        new_order (order_type_of request.order_type) order_id side (signed32 request.price)
          request.quantity
    let stored = record a.orderbook { heap = write a.orderbook.heap a.next_address order }
    (trades, book) ← add_order fuel a.next_address stored
    returned (
      (order_id, trades),
      record {
        orderbook = book;
        next_order_id = (order_id + 1) % 2 ^ 64;
        next_address = suc a.next_address;
      },
    ))
]

unfoldable pub process_cancel_order_request :
    CancelOrderRequest → OrderbookNetworkAdapter → Outcome OrderbookNetworkAdapter
process_cancel_order_request request a = do
  book ← cancel_order request.order_id a.orderbook
  returned (record a { orderbook = book })

unfoldable pub process_modify_order_request :
    ℕ → ModifyOrderRequest → OrderbookNetworkAdapter → Outcome (Trades × OrderbookNetworkAdapter)
process_modify_order_request fuel request a = elim (side_of request.side) [
  | none ↦ unmodelled
  | some side ↦ (do
    let modify : OrderModify = record {
      order_id = request.order_id;
      price = signed32 request.price;
      side = side;
      quantity = request.quantity;
    }
    (trades, book) ← modify_order fuel a.next_address modify a.orderbook
    returned (trades, record a { orderbook = book; next_address = suc a.next_address }))
]

unfoldable pub get_orderbook_status : OrderbookNetworkAdapter → OrderbookLevelInfos
get_orderbook_status a = get_order_infos a.orderbook

unfoldable pub adapter_size : OrderbookNetworkAdapter → ℕ
adapter_size a = size a.orderbook
