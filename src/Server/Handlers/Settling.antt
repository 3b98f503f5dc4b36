-- ===== src/Server/Handlers/Settling.antt =====
-- What the handlers of requests for orders of Orderbook Server/server.cpp come to, beside the resting
-- orders of the specification.
use simple_orderbook_v.Common.{ℕ, zero, suc, ◌+◌, ◌≡◌, Option, none, some, if◌then◌else◌, signed32}
use simple_orderbook_v.Outcome.{Outcome, returned, unmodelled, out_of_fuel}
use simple_orderbook_v.Messages.{AddOrderRequest, CancelOrderRequest, ModifyOrderRequest}
use simple_orderbook_v.ByteOrder.Protocol.{Message}
use simple_orderbook_v.Order.{
  Order, OrderType, good_till_cancel, fill_and_kill, Side, buy, sell, OrderModify,
}
use simple_orderbook_v.Index.{contains}
use simple_orderbook_v.Orderbook.Spec.{Resting, without_id}
use simple_orderbook_v.Orderbook.Refinement.{Faithful}
use simple_orderbook_v.Server.{TcpServer, Socket}
use simple_orderbook_v.Server.Handlers.Success.{success_cancelled, IsReplied}

-- What the numbers of a request stand for: 0 is buy and 1 is sell, 1 is fill-and-kill.

abbrev pub side_named : ℕ → Option Side
side_named zero = some buy
side_named (suc zero) = some sell
side_named _ = none

abbrev pub type_named : ℕ → OrderType
type_named (suc zero) = fill_and_kill
type_named _ = good_till_cancel

abbrev pub order_named : AddOrderRequest → Side → Order
order_named request side = record {
  order_type = type_named request.order_type;
  order_id = request.client_order_id;
  side = side;
  price = signed32 request.price;
  initial_quantity = request.quantity;
  remaining_quantity = request.quantity;
}

abbrev pub modify_named : ModifyOrderRequest → Side → OrderModify
modify_named request side = record {
  order_id = request.order_id;
  price = signed32 request.price;
  side = side;
  quantity = request.quantity;
}

-- What a request with a side byte comes to, beside the resting orders that its specification gives for
-- the side, or does not give.
pub data Settling (side_byte : ℕ) (spec : Side → Option Resting) (response : Message)
    (socket : Socket) (s : TcpServer) (r : Outcome TcpServer) : Type 0 where
  settled :
      (t : TcpServer) (side : Side) (shown : Resting)
      → side_named side_byte ≡ some side
      → spec side ≡ some shown
      → r ≡ returned t
      → Faithful t.next_address t.orderbook shown
      → IsReplied socket response s t
      → Settling side_byte spec response socket s r
  stuck :
      (side : Side)
      → side_named side_byte ≡ some side
      → spec side ≡ none
      → r ≡ out_of_fuel
      → Settling side_byte spec response socket s r
  left_out :
      side_named side_byte ≡ none → r ≡ unmodelled → Settling side_byte spec response socket s r

-- The server after a request to cancel an order.
pub record Withdrawn (request : CancelOrderRequest) (resting : Resting) (socket : Socket)
    (s t : TcpServer) : Type 0 where
  pub shows : Faithful t.next_address t.orderbook (without_id request.order_id resting)
  pub dangling : t.orderbook.dangling_reads ≡ (
      if contains request.order_id s.orderbook.orders
      then s.orderbook.dangling_reads + 3
      else s.orderbook.dangling_reads)
  pub replied : IsReplied socket (success_cancelled request) s t
