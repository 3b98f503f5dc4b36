-- ===== src/Adapter/Examples.antt =====
-- A session of the adapter of Orderbook Server/orderbook_adapter.h, and instances of the theorems.
use simple_orderbook_v.Common.{suc, ◌<◌, ◌^◌, ◌≡◌, refl, pos, [], ◌∷◌, arith}
use simple_orderbook_v.Common.Int.{signed32}
use simple_orderbook_v.Common.{none}
use simple_orderbook_v.Adapter.Lock.{
  ThreadSafeOrderbook, new_orderbook, Reached, new, step, lock_shared, Holds, holds, still,
  IsGuarded, Holds-IsGuarded,
}
use simple_orderbook_v.Outcome.{returned, value_or}
use simple_orderbook_v.Messages.{
  type_code, req_add_order, AddOrderRequest, size_of_add_order_request,
}
use simple_orderbook_v.Order.{OrderId, good_till_cancel, buy, new_order}
use simple_orderbook_v.Levels.{update, push_back}
use simple_orderbook_v.Index.{Heap, lookup, contains, insert, write}
use simple_orderbook_v.Matching.{Trades}
use simple_orderbook_v.Orderbook.{
  empty_orderbook, add_order, rest_order, match_orders, match_levels, kill_front,
}
use simple_orderbook_v.Server.Handlers.{side_of, order_type_of}
use simple_orderbook_v.Adapter.{OrderbookNetworkAdapter, new_adapter, process_add_order_request}
use simple_orderbook_v.Adapter.Sessions.{begins, adds, IsNumbered, Session-IsNumbered}

abbrev heap : Heap
heap p = record {
  order_type = good_till_cancel;
  order_id = 0;
  side = buy;
  price = pos 0;
  initial_quantity = 0;
  remaining_quantity = 0;
}

-- A bid for 10 at 100, which its client calls 7.
abbrev bid : AddOrderRequest
bid = record {
  header = record {
    type = type_code req_add_order;
    length = size_of_add_order_request;
    sequence = 0;
  };
  order_type = 0;
  side = 0;
  price = 100;
  quantity = 10;
  client_order_id = 7;
}

abbrev adapter : OrderbookNetworkAdapter
adapter = new_adapter heap 0

abbrev answer : (OrderId × Trades) × OrderbookNetworkAdapter
answer = value_or ((0, []), adapter) (process_add_order_request 3 bid adapter)

first_answer : process_add_order_request 3 bid adapter ≡ returned ((1, []), answer.1)
unfolding process_add_order_request new_adapter side_of order_type_of new_order signed32 add_order
    match_orders match_levels kill_front rest_order insert contains lookup update push_back
    empty_orderbook write
first_answer = refl

first_small : suc adapter.next_order_id < 2 ^ 64
unfolding new_adapter
first_small = omega arith

Session-IsNumbered_example : IsNumbered answer.1 (1 ∷ [])
Session-IsNumbered_example =
    Session-IsNumbered (adds 2 bid 1 [] (begins 0) first_small first_answer)

-- One thread reads the book while another one begins to.
abbrev first_reader : ThreadSafeOrderbook
first_reader = record (new_orderbook heap) { readers = 1 ∷ [] }

abbrev two_readers : ThreadSafeOrderbook
two_readers = record first_reader { readers = 2 ∷ 1 ∷ [] }

first_reader-Reached : Reached heap first_reader
unfolding new_orderbook
first_reader-Reached = step new (lock_shared 1 refl)

first_reader-Holds : Holds 1 first_reader two_readers
unfolding new_orderbook
first_reader-Holds = still (holds refl) (lock_shared 2 refl) refl

Holds-IsGuarded_example :
    IsGuarded two_readers
    × (two_readers.orderbook ≡ first_reader.orderbook)
    × (two_readers.writer ≡ none)
Holds-IsGuarded_example = Holds-IsGuarded first_reader-Reached first_reader-Holds
