-- ===== src/Server/Handlers/Success.antt =====
-- The responses of the handlers of requests for orders of Orderbook Server/server.cpp, as a client of either byte order reads them.
use simple_orderbook_v.Common.{ℕ, ◌≡◌, List, [], ◌∷◌, ◌++◌, arith}
use simple_orderbook_v.Network.{Host}
use simple_orderbook_v.Messages.{
  AddOrderRequest, CancelOrderRequest, type_code, rsp_add_order, rsp_cancel_order,
  size_of_add_order_response, size_of_cancel_order_response, ModifyOrderRequest, rsp_modify_order,
}
use simple_orderbook_v.ByteOrder.Protocol.{Message, FitsFields, kind_of, read_as, big_endian}
use simple_orderbook_v.ByteOrder.Hosts.{read_as-on_wire}
use simple_orderbook_v.Server.{TcpServer, Socket}
use simple_orderbook_v.Server.Handlers.{
  Machine, header_for, add_order_reply, cancel_order_reply, modify_order_reply,
}
use simple_orderbook_v.Server.Handlers.Clients.{IsAddOrder, IsCancelOrder, IsModifyOrder}

-- The responses of success, whose status is 0.

abbrev pub success_added : AddOrderRequest → Message
success_added request = Message.add_order_response (record {
  header = record {
    type = type_code rsp_add_order;
    length = size_of_add_order_response;
    sequence = request.header.sequence;
  };
  client_order_id = request.client_order_id;
  server_order_id = request.client_order_id;
  status = 0;
})

abbrev pub success_cancelled : CancelOrderRequest → Message
success_cancelled request = Message.cancel_order_response (record {
  header = record {
    type = type_code rsp_cancel_order;
    length = size_of_cancel_order_response;
    sequence = request.header.sequence;
  };
  order_id = request.order_id;
  status = 0;
})

-- The response is the request itself, but for its type.
abbrev pub success_modified : ModifyOrderRequest → Message
success_modified request = Message.modify_order_request (record {
  header = record {
    type = type_code rsp_modify_order;
    length = request.header.length;
    sequence = request.header.sequence;
  };
  order_id = request.order_id;
  side = request.side;
  price = request.price;
  quantity = request.quantity;
})

-- The one message that is sent is the response, to the socket, and every client reads it as such.
pub record IsReplied (socket : Socket) (response : Message) (s t : TcpServer) : Type 0 where
  pub sent : t.sent ≡ s.sent ++ ((socket, big_endian response) ∷ [])
  pub says :
      (client : Host) (rest : List ℕ)
      → read_as client (kind_of response) (big_endian response ++ rest) ≡ response
  pub clients : t.clients ≡ s.clients
  pub sockets : t.open_sockets ≡ s.open_sockets

module _ (machine : Machine) where
  open machine use {host}

  pub success_added-FitsFields :
      (request : AddOrderRequest) → IsAddOrder request → FitsFields (success_added request)
  success_added-FitsFields request i = (
    omega arith,
    (
      omega arith,
      (
        i.fits.header.sequence,
        (i.fits.client_order_id, (i.fits.client_order_id, (omega arith, tt))),
      ),
    ),
  )

  pub add_order_reply-big_endian :
      (request : AddOrderRequest)
      → IsAddOrder request
      → add_order_reply machine request ≡ big_endian (success_added request)
  unfolding add_order_reply header_for
  add_order_reply-big_endian request i =
      (read_as-on_wire host host (success_added request) [] (success_added-FitsFields request i)).0

  pub success_cancelled-FitsFields :
      (request : CancelOrderRequest)
      → IsCancelOrder request
      → FitsFields (success_cancelled request)
  success_cancelled-FitsFields request i =
      (omega arith, (omega arith, (i.fits.header.sequence, (i.fits.order_id, (omega arith, tt)))))

  pub cancel_order_reply-big_endian :
      (request : CancelOrderRequest)
      → IsCancelOrder request
      → cancel_order_reply machine request ≡ big_endian (success_cancelled request)
  unfolding cancel_order_reply header_for
  cancel_order_reply-big_endian request i =
      (read_as-on_wire host host (success_cancelled request) []
        (success_cancelled-FitsFields request i)).0

  pub success_modified-FitsFields :
      (request : ModifyOrderRequest) → IsModifyOrder request → FitsFields (success_modified request)
  success_modified-FitsFields request i = (
    omega arith,
    (
      i.fits.header.length,
      (i.fits.header.sequence, (i.fits.order_id, (i.side, (i.fits.price, (i.fits.quantity, tt))))),
    ),
  )

  pub modify_order_reply-big_endian :
      (request : ModifyOrderRequest)
      → IsModifyOrder request
      → modify_order_reply machine request ≡ big_endian (success_modified request)
  unfolding modify_order_reply
  modify_order_reply-big_endian request i =
      (read_as-on_wire host host (success_modified request) []
        (success_modified-FitsFields request i)).0

  pub read_success :
      (response : Message)
      → FitsFields response
      → (client : Host) (rest : List ℕ)
      → read_as client (kind_of response) (big_endian response ++ rest) ≡ response
  read_success response fits client rest =
      let (bytes, got) = read_as-on_wire host client response rest fits in rw bytes at got
