-- ===== src/Client/Receiver/Responses/AddOrder.antt =====
-- The reply to a request to add an order, from the handler of Orderbook Server/server.cpp to that of Orderbook
-- Client/client.cpp.
use simple_orderbook_v.Common.{ℕ, ◌≡◌, ◌∙◌, refl, sym, ap, List, [], ◌++◌, ltb-false, arith}
use simple_orderbook_v.Network.{htonl-lt, htonll-lt, ntohl-htonl}
use simple_orderbook_v.Messages.{
  AddOrderRequest, type_code, rsp_add_order, size_of_add_order_response,
}
use simple_orderbook_v.ByteOrder.{add_order_response_to_network_order}
use simple_orderbook_v.ByteOrder.RoundTrip.{FitsAddOrderResponse, add_order_response_host-network}
use simple_orderbook_v.Wire.{read, write}
use simple_orderbook_v.Wire.Structs.{header_struct, add_order_response_struct}
use simple_orderbook_v.Framing.{peek_length}
use simple_orderbook_v.Framing.Casts.{Whole, Handles, struct-Frame}
use simple_orderbook_v.Framing.Frames.{Frame}
use simple_orderbook_v.Framing.Headers.{type-read, peek_length-encode}
use simple_orderbook_v.Server.Handlers.{Machine, header_for, add_order_reply}
use simple_orderbook_v.Server.Handlers.Clients.{IsAddOrder}
use simple_orderbook_v.Server.Handlers.Clients.Stream.{add}
use simple_orderbook_v.Client.Receiver.{Line, process_message, handle_add_order_response}
use mathlib.Core.List.{append-nil}
use simple_orderbook_v.Client.Receiver.Responses.{add_order_response_for, line_of, print}

module _ (machine : Machine) where
  open machine use {host}

  add_order_response-Fits :
      (m : AddOrderRequest) → IsAddOrder m → FitsAddOrderResponse (add_order_response_for m)
  unfolding header_for
  add_order_response-Fits m i = record {
    header = record { length = omega arith; sequence = i.fits.header.sequence };
    client_order_id = i.fits.client_order_id;
    server_order_id = i.fits.client_order_id;
  }

  pub add_order-Whole :
      (m : AddOrderRequest)
      → IsAddOrder m
      → Whole host
          (process_message host)
          add_order_response_struct
          (add_order_response_to_network_order host (add_order_response_for m))
          (add_order_response_for m)
  unfolding add_order_response_to_network_order header_for
  add_order-Whole m i = record {
    stored = record {
      fits = ground (
        arith,
        htonl-lt host 26,
        htonl-lt host m.header.sequence,
        htonll-lt host m.client_order_id,
      );
      whole = refl;
    };
    sent_fields = refl;
    got_fields = refl;
  }

  pub add_order-peek :
      (m : AddOrderRequest)
      → IsAddOrder m
      → peek_length host (add_order_reply machine m) ≡ size_of_add_order_response
  unfolding add_order_reply write add_order_response_to_network_order header_for
  add_order-peek m i =
      let length_fits = (add_order_response-Fits m i).header.length in
      ap (peek_length host) (sym (append-nil _))
      ∙ peek_length-encode host _ _ (host.htonl (add_order_response_for m).header.length) _ _ []
          (htonl-lt host _ length_fits)
      ∙ ntohl-htonl host _ length_fits
      ∙ refl

  add_order-type :
      (m : AddOrderRequest) (rest : List ℕ)
      → (read header_struct host (add_order_reply machine m ++ rest)).type ≡ type_code rsp_add_order
  unfolding add_order_reply write add_order_response_to_network_order header_for
  add_order-type m rest = type-read host _ (type_code rsp_add_order) _ _ _ rest

  add_order-dispatch :
      (buffer : List ℕ) (lines : List Line) (n : ℕ)
      → (read header_struct host buffer).type ≡ type_code rsp_add_order
      → process_message host n buffer lines ≡ handle_add_order_response host buffer lines
  unfolding process_message
  add_order-dispatch buffer lines n e = rw e refl

  pub add_order-Handles :
      (m : AddOrderRequest)
      → IsAddOrder m
      → Handles host
          (process_message host)
          add_order_response_struct
          (add_order_response_to_network_order host (add_order_response_for m))
          (add_order_response_for m)
          (print (line_of (add m)))
  unfolding handle_add_order_response add_order_reply header_for
  add_order-Handles m i rest lines e long =
      add_order-dispatch (add_order_reply machine m ++ rest) lines _ (add_order-type m rest)
      ∙ rw
          (
            e,
            add_order_response_host-network host (add_order_response_for m)
                (add_order_response-Fits m i),
            ltb-false _ _ long,
          )
          refl

  unfoldable pub add_order-Frame :
      (m : AddOrderRequest) → IsAddOrder m → Frame host (process_message host)
  unfolding add_order_reply
  add_order-Frame m i =
      struct-Frame host (process_message host) add_order_response_struct _
        (add_order_response_for m) (print (line_of (add m))) (add_order-Whole m i) (omega arith)
        (add_order-peek m i) (add_order-Handles m i)
