-- ===== src/Server/Handlers/Clients/ModifyOrder.antt =====
-- Requests to modify an order, from the bytes of Orderbook Client/client.cpp to the handler of Orderbook
-- Server/server.cpp.
use simple_orderbook_v.Common.{ℕ, ◌≡◌, ◌∙◌, refl, sym, ap, List, [], ◌++◌, ltb-false, arith}
use simple_orderbook_v.Network.{htonl-lt, htonll-lt, ntohl-htonl}
use simple_orderbook_v.Messages.{
  ModifyOrderRequest, type_code, req_modify_order, size_of_modify_order_request,
}
use simple_orderbook_v.ByteOrder.{modify_order_request_to_network_order}
use simple_orderbook_v.ByteOrder.RoundTrip.{modify_order_request_host-network}
use simple_orderbook_v.Wire.{read, write}
use simple_orderbook_v.Wire.Structs.{header_struct, modify_order_request_struct}
use simple_orderbook_v.Framing.{peek_length}
use simple_orderbook_v.Framing.Casts.{Whole, Handles, struct-Frame}
use simple_orderbook_v.Framing.Frames.{Frame}
use simple_orderbook_v.Framing.Headers.{type-read, peek_length-encode}
use simple_orderbook_v.Server.{TcpServer, Socket}
use simple_orderbook_v.Server.Handlers.{
  Machine, process_message, handle_modify_order_request, serve_modify_order,
}
use mathlib.Core.List.{append-nil}
use simple_orderbook_v.Server.Handlers.Clients.{IsModifyOrder}

module _ (machine : Machine) (fuel : ℕ) (socket : Socket) where
  open machine use {host}

  unfoldable pub modify_order_bytes : ModifyOrderRequest → List ℕ
  modify_order_bytes m =
      write modify_order_request_struct host (modify_order_request_to_network_order host m)

  pub modify_order-Whole :
      (m : ModifyOrderRequest)
      → IsModifyOrder m
      → Whole host
          (process_message machine fuel socket)
          modify_order_request_struct
          (modify_order_request_to_network_order host m)
          m
  unfolding modify_order_request_to_network_order
  modify_order-Whole m i = record {
    stored = record {
      fits = ground (
        arith,
        i.type,
        htonl-lt host m.header.length,
        htonl-lt host m.header.sequence,
        htonl-lt host m.price,
        htonl-lt host m.quantity,
        htonll-lt host m.order_id,
      );
      whole = refl;
    };
    sent_fields = refl;
    got_fields = refl;
  }

  pub modify_order-peek :
      (m : ModifyOrderRequest)
      → IsModifyOrder m
      → peek_length host (modify_order_bytes m) ≡ size_of_modify_order_request
  unfolding modify_order_bytes write modify_order_request_to_network_order
  modify_order-peek m i =
      ap (peek_length host) (sym (append-nil _))
      ∙ peek_length-encode host _ _ (host.htonl m.header.length) _ _ []
          (htonl-lt host m.header.length i.fits.header.length)
      ∙ ntohl-htonl host m.header.length i.fits.header.length
      ∙ i.size

  modify_order-type :
      (m : ModifyOrderRequest) (rest : List ℕ)
      → IsModifyOrder m
      → (read header_struct host (modify_order_bytes m ++ rest)).type ≡ type_code req_modify_order
  unfolding modify_order_bytes write modify_order_request_to_network_order
  modify_order-type m rest i = type-read host _ m.header.type _ _ _ rest ∙ i.type

  modify_order-dispatch :
      (buffer : List ℕ) (s : TcpServer) (n : ℕ)
      → (read header_struct host buffer).type ≡ type_code req_modify_order
      → process_message machine fuel socket n buffer s
        ≡ handle_modify_order_request machine fuel socket buffer s
  unfolding process_message
  modify_order-dispatch buffer s n e = rw e refl

  pub modify_order-Handles :
      (m : ModifyOrderRequest)
      → IsModifyOrder m
      → Handles host
          (process_message machine fuel socket)
          modify_order_request_struct
          (modify_order_request_to_network_order host m)
          m
          (serve_modify_order machine fuel socket m)
  unfolding handle_modify_order_request modify_order_bytes
  modify_order-Handles m i rest s e long =
      modify_order-dispatch (modify_order_bytes m ++ rest) s _ (modify_order-type m rest i)
      ∙ rw (e, modify_order_request_host-network host m i.fits, ltb-false _ _ long) refl

  -- The bytes of the request are a message of the loop, whose handler serves the request.
  unfoldable pub modify_order-Frame :
      (m : ModifyOrderRequest) → IsModifyOrder m → Frame host (process_message machine fuel socket)
  unfolding modify_order_bytes
  modify_order-Frame m i =
      struct-Frame host (process_message machine fuel socket) modify_order_request_struct _ m
        (serve_modify_order machine fuel socket m) (modify_order-Whole m i) (omega arith)
        (modify_order-peek m i) (modify_order-Handles m i)
