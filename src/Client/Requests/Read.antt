-- ===== src/Client/Requests/Read.antt =====
-- What the server reads of an order that Orderbook Client/client.cpp sends.
use simple_orderbook_v.Common.{ℕ, ◌+◌, ◌^◌, ◌<◌, ◌≡◌, true, [], ◌∷◌, ◌++◌, arith}
use simple_orderbook_v.Network.{Host}
use simple_orderbook_v.Messages.{AddOrderRequest, req_add_order, size_of_add_order_request}
use simple_orderbook_v.ByteOrder.{
  add_order_request_to_network_order, add_order_request_to_host_order,
}
use simple_orderbook_v.ByteOrder.RoundTrip.{add_order_request_host-network}
use simple_orderbook_v.Client.{TcpClient, add_order}
use simple_orderbook_v.Client.Requests.{header_of, send_add_order_request}

-- The request that the command asks for, with the client's next ID.
abbrev pub request_of : ℕ → ℕ → ℕ → ℕ → TcpClient → AddOrderRequest
request_of order_type side price quantity c = record {
  header = header_of req_add_order size_of_add_order_request;
  order_type = order_type;
  side = side;
  price = price;
  quantity = quantity;
  client_order_id = c.next_order_id;
}

-- One message was sent, the server reads it as `request`, and the next order gets the next ID.
pub record IsSent (host : Host) (request : AddOrderRequest) (before after : TcpClient)
    : Type 0 where
  pub message : AddOrderRequest
  pub sent : after.sent ≡ before.sent ++ (add_order message ∷ [])
  pub read : add_order_request_to_host_order host message ≡ request
  pub next : after.next_order_id ≡ before.next_order_id + 1

-- In a client that is connected and has not used up its IDs, an order whose price and quantity fit
-- 32 bits is sent as one message, which the server reads as that order under the client's next ID.
pub send_add_order_request-IsSent :
    (host : Host) (order_type side price quantity : ℕ) (c : TcpClient)
    → c.connected ≡ true
    → price < 2 ^ 32
    → quantity < 2 ^ 32
    → c.next_order_id + 1 < 2 ^ 64
    → IsSent host
        (request_of order_type side price quantity c)
        c
        (send_add_order_request host order_type side price quantity c)
unfolding send_add_order_request
send_add_order_request-IsSent host t s p q c online hp hq hn = record {
  message = add_order_request_to_network_order host (request_of t s p q c);
  sent = ground (arith, online);
  read = add_order_request_host-network host (request_of t s p q c) (record {
    header = record { length = omega arith; sequence = omega arith };
    price = hp;
    quantity = hq;
    client_order_id = omega arith;
  });
  next = ground (arith, online);
}
