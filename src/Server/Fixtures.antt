-- ===== src/Server/Fixtures.antt =====
-- A server of Orderbook Server/server.cpp and two requests, for the runs on small inputs.
use simple_orderbook_v.Common.{refl, true, pos, [], ◌∷◌, arith}
use simple_orderbook_v.Common.{replicate}
use simple_orderbook_v.Network.{swap32}
use simple_orderbook_v.Messages.{
  type_code, req_add_order, req_cancel_order, AddOrderRequest, CancelOrderRequest,
  size_of_add_order_request, size_of_cancel_order_request,
}
use simple_orderbook_v.Order.{good_till_cancel, buy}
use simple_orderbook_v.Index.{Heap}
use simple_orderbook_v.Orderbook.{empty_orderbook}
use simple_orderbook_v.Orderbook.Session.{empty_orderbook-IsValid, empty-IsUnused}
use simple_orderbook_v.Orderbook.Refinement.{Faithful}
use simple_orderbook_v.Orderbook.Replay.{empty_orderbook-Faithful}
use simple_orderbook_v.Server.{TcpServer, new_server}
use simple_orderbook_v.Server.Handlers.{Machine}
use simple_orderbook_v.Server.Handlers.Clients.{IsAddOrder, IsCancelOrder}
use simple_orderbook_v.Server.Handlers.Outcomes.{IsSound}

abbrev pub machine : Machine
machine = record {
  host = record {
    little_endian = true;
    htonl = swap32;
    ntohl = swap32;
    htonl_lem = λ x h. refl;
    ntohl_lem = λ x h. refl;
  };
  print_clients = λ n. n ∷ 0 ∷ [];
  stack = record {
    header = record { type = 0; length = 0; sequence = 0 };
    bid_levels_count = 0;
    ask_levels_count = 0;
    bid_levels = replicate 10 (record { price = 0; quantity = 0 });
    ask_levels = replicate 10 (record { price = 0; quantity = 0 });
  };
}

abbrev pub heap : Heap
heap p = record {
  order_type = good_till_cancel;
  order_id = 0;
  side = buy;
  price = pos 0;
  initial_quantity = 0;
  remaining_quantity = 0;
}

abbrev pub server : TcpServer
server = new_server (empty_orderbook heap) 0

pub server-IsSound : IsSound server
unfolding new_server
server-IsSound = record {
  valid = empty_orderbook-IsValid heap;
  below = λ s r a m. absurd (ground (arith, m, empty-IsUnused heap a s r));
}

pub server-Faithful : Faithful server.next_address server.orderbook []
unfolding new_server
server-Faithful = empty_orderbook-Faithful heap 0

-- A bid for 10 at 100 with the ID 7, and its end.

abbrev pub bid : AddOrderRequest
bid = record {
  header = record {
    type = type_code req_add_order;
    length = size_of_add_order_request;
    sequence = 0;
  };
  order_type = 0;
  side = 0;
  price = 100;
  quantity = 10;
  client_order_id = 7;
}

pub bid-IsAddOrder : IsAddOrder bid
bid-IsAddOrder = record {
  fits = record {
    header = record { length = omega arith; sequence = omega arith };
    price = omega arith;
    quantity = omega arith;
    client_order_id = omega arith;
  };
  type = refl;
  size = refl;
  order_type = omega arith;
  side = omega arith;
}

abbrev pub withdrawal : CancelOrderRequest
withdrawal = record {
  header = record {
    type = type_code req_cancel_order;
    length = size_of_cancel_order_request;
    sequence = 0;
  };
  order_id = 7;
}

pub withdrawal-IsCancelOrder : IsCancelOrder withdrawal
withdrawal-IsCancelOrder = record {
  fits = record {
    header = record { length = omega arith; sequence = omega arith };
    order_id = omega arith;
  };
  type = refl;
  size = refl;
}
