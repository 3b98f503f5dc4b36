-- ===== src/Server/Handlers/Clients/CancelOrder.antt =====
-- Requests to cancel an order, from the bytes of Orderbook Client/client.cpp to the handler of Orderbook
-- Server/server.cpp.
use simple_orderbook_v.Common.{ℕ, ◌≡◌, ◌∙◌, refl, sym, ap, List, [], ◌++◌, ltb-false, arith}
use simple_orderbook_v.Network.{htonl-lt, htonll-lt, ntohl-htonl}
use simple_orderbook_v.Messages.{
  CancelOrderRequest, type_code, req_cancel_order, size_of_cancel_order_request,
}
use simple_orderbook_v.ByteOrder.{cancel_order_request_to_network_order}
use simple_orderbook_v.ByteOrder.RoundTrip.{cancel_order_request_host-network}
use simple_orderbook_v.Wire.{read, write}
use simple_orderbook_v.Wire.Structs.{header_struct, cancel_order_request_struct}
use simple_orderbook_v.Framing.{peek_length}
use simple_orderbook_v.Framing.Casts.{Whole, Handles, struct-Frame}
use simple_orderbook_v.Framing.Frames.{Frame}
use simple_orderbook_v.Framing.Headers.{type-read, peek_length-encode}
use simple_orderbook_v.Server.{TcpServer, Socket}
use simple_orderbook_v.Server.Handlers.{
  Machine, process_message, handle_cancel_order_request, serve_cancel_order,
}
use mathlib.Core.List.{append-nil}
use simple_orderbook_v.Server.Handlers.Clients.{IsCancelOrder}

module _ (machine : Machine) (fuel : ℕ) (socket : Socket) where
  open machine use {host}

  unfoldable pub cancel_order_bytes : CancelOrderRequest → List ℕ
  cancel_order_bytes m =
      write cancel_order_request_struct host (cancel_order_request_to_network_order host m)

  pub cancel_order-Whole :
      (m : CancelOrderRequest)
      → IsCancelOrder m
      → Whole host
          (process_message machine fuel socket)
          cancel_order_request_struct
          (cancel_order_request_to_network_order host m)
          m
  unfolding cancel_order_request_to_network_order
  cancel_order-Whole m i = record {
    stored = record {
      fits = ground (
        arith,
        i.type,
        htonl-lt host m.header.length,
        htonl-lt host m.header.sequence,
        htonll-lt host m.order_id,
      );
      whole = refl;
    };
    sent_fields = refl;
    got_fields = refl;
  }

  pub cancel_order-peek :
      (m : CancelOrderRequest)
      → IsCancelOrder m
      → peek_length host (cancel_order_bytes m) ≡ size_of_cancel_order_request
  unfolding cancel_order_bytes write cancel_order_request_to_network_order
  cancel_order-peek m i =
      ap (peek_length host) (sym (append-nil _))
      ∙ peek_length-encode host _ _ (host.htonl m.header.length) _ _ []
          (htonl-lt host m.header.length i.fits.header.length)
      ∙ ntohl-htonl host m.header.length i.fits.header.length
      ∙ i.size

  cancel_order-type :
      (m : CancelOrderRequest) (rest : List ℕ)
      → IsCancelOrder m
      → (read header_struct host (cancel_order_bytes m ++ rest)).type ≡ type_code req_cancel_order
  unfolding cancel_order_bytes write cancel_order_request_to_network_order
  cancel_order-type m rest i = type-read host _ m.header.type _ _ _ rest ∙ i.type

  cancel_order-dispatch :
      (buffer : List ℕ) (s : TcpServer) (n : ℕ)
      → (read header_struct host buffer).type ≡ type_code req_cancel_order
      → process_message machine fuel socket n buffer s
        ≡ handle_cancel_order_request machine fuel socket buffer s
  unfolding process_message
  cancel_order-dispatch buffer s n e = rw e refl

  pub cancel_order-Handles :
      (m : CancelOrderRequest)
      → IsCancelOrder m
      → Handles host
          (process_message machine fuel socket)
          cancel_order_request_struct
          (cancel_order_request_to_network_order host m)
          m
          (serve_cancel_order machine fuel socket m)
  unfolding handle_cancel_order_request cancel_order_bytes
  cancel_order-Handles m i rest s e long =
      cancel_order-dispatch (cancel_order_bytes m ++ rest) s _ (cancel_order-type m rest i)
      ∙ rw (e, cancel_order_request_host-network host m i.fits, ltb-false _ _ long) refl

  -- The bytes of the request are a message of the loop, whose handler serves the request.
  unfoldable pub cancel_order-Frame :
      (m : CancelOrderRequest) → IsCancelOrder m → Frame host (process_message machine fuel socket)
  unfolding cancel_order_bytes
  cancel_order-Frame m i =
      struct-Frame host (process_message machine fuel socket) cancel_order_request_struct _ m
        (serve_cancel_order machine fuel socket m) (cancel_order-Whole m i) (omega arith)
        (cancel_order-peek m i) (cancel_order-Handles m i)
