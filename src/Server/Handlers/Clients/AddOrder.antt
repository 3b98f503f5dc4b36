-- ===== src/Server/Handlers/Clients/AddOrder.antt =====
-- Requests to add an order, from the bytes of Orderbook Client/client.cpp to the handler of Orderbook
-- Server/server.cpp.
use simple_orderbook_v.Common.{ℕ, ◌≡◌, ◌∙◌, refl, sym, ap, List, [], ◌++◌, ltb-false, arith}
use simple_orderbook_v.Network.{htonl-lt, htonll-lt, ntohl-htonl}
use simple_orderbook_v.Messages.{
  AddOrderRequest, type_code, req_add_order, size_of_add_order_request,
}
use simple_orderbook_v.ByteOrder.{add_order_request_to_network_order}
use simple_orderbook_v.ByteOrder.RoundTrip.{add_order_request_host-network}
use simple_orderbook_v.Wire.{read, write}
use simple_orderbook_v.Wire.Structs.{header_struct, add_order_request_struct}
use simple_orderbook_v.Framing.{peek_length}
use simple_orderbook_v.Framing.Casts.{Whole, Handles, struct-Frame}
use simple_orderbook_v.Framing.Frames.{Frame}
use simple_orderbook_v.Framing.Headers.{type-read, peek_length-encode}
use simple_orderbook_v.Server.{TcpServer, Socket}
use simple_orderbook_v.Server.Handlers.{
  Machine, process_message, handle_add_order_request, serve_add_order,
}
use mathlib.Core.List.{append-nil}
use simple_orderbook_v.Server.Handlers.Clients.{IsAddOrder}

module _ (machine : Machine) (fuel : ℕ) (socket : Socket) where
  open machine use {host}

  unfoldable pub add_order_bytes : AddOrderRequest → List ℕ
  add_order_bytes m =
      write add_order_request_struct host (add_order_request_to_network_order host m)

  pub add_order-Whole :
      (m : AddOrderRequest)
      → IsAddOrder m
      → Whole host
          (process_message machine fuel socket)
          add_order_request_struct
          (add_order_request_to_network_order host m)
          m
  unfolding add_order_request_to_network_order
  add_order-Whole m i = record {
    stored = record {
      fits = ground (
        arith,
        i.type,
        htonl-lt host m.header.length,
        htonl-lt host m.header.sequence,
        htonl-lt host m.price,
        htonl-lt host m.quantity,
        htonll-lt host m.client_order_id,
      );
      whole = refl;
    };
    sent_fields = refl;
    got_fields = refl;
  }

  pub add_order-peek :
      (m : AddOrderRequest)
      → IsAddOrder m
      → peek_length host (add_order_bytes m) ≡ size_of_add_order_request
  unfolding add_order_bytes write add_order_request_to_network_order
  add_order-peek m i =
      ap (peek_length host) (sym (append-nil _))
      ∙ peek_length-encode host _ _ (host.htonl m.header.length) _ _ []
          (htonl-lt host m.header.length i.fits.header.length)
      ∙ ntohl-htonl host m.header.length i.fits.header.length
      ∙ i.size

  add_order-type :
      (m : AddOrderRequest) (rest : List ℕ)
      → IsAddOrder m
      → (read header_struct host (add_order_bytes m ++ rest)).type ≡ type_code req_add_order
  unfolding add_order_bytes write add_order_request_to_network_order
  add_order-type m rest i = type-read host _ m.header.type _ _ _ rest ∙ i.type

  add_order-dispatch :
      (buffer : List ℕ) (s : TcpServer) (n : ℕ)
      → (read header_struct host buffer).type ≡ type_code req_add_order
      → process_message machine fuel socket n buffer s
        ≡ handle_add_order_request machine fuel socket buffer s
  unfolding process_message
  add_order-dispatch buffer s n e = rw e refl

  pub add_order-Handles :
      (m : AddOrderRequest)
      → IsAddOrder m
      → Handles host
          (process_message machine fuel socket)
          add_order_request_struct
          (add_order_request_to_network_order host m)
          m
          (serve_add_order machine fuel socket m)
  unfolding handle_add_order_request add_order_bytes
  add_order-Handles m i rest s e long =
      add_order-dispatch (add_order_bytes m ++ rest) s _ (add_order-type m rest i)
      ∙ rw (e, add_order_request_host-network host m i.fits, ltb-false _ _ long) refl

  -- The bytes of the request are a message of the loop, whose handler serves the request.
  unfoldable pub add_order-Frame :
      (m : AddOrderRequest) → IsAddOrder m → Frame host (process_message machine fuel socket)
  unfolding add_order_bytes
  add_order-Frame m i =
      struct-Frame host (process_message machine fuel socket) add_order_request_struct _ m
        (serve_add_order machine fuel socket m) (add_order-Whole m i) (omega arith)
        (add_order-peek m i) (add_order-Handles m i)
