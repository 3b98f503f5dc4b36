-- ===== src/Client/Receiver/Responses/ModifyOrder.antt =====
-- The reply to a request to modify an order, from the handler of Orderbook Server/server.cpp to that of Orderbook
-- Client/client.cpp.
use simple_orderbook_v.Common.{ℕ, ◌≡◌, ◌∙◌, refl, sym, ap, List, [], ◌++◌, ltb-false, arith}
use simple_orderbook_v.Network.{htonl-lt, htonll-lt, ntohl-htonl}
use simple_orderbook_v.Messages.{
  ModifyOrderRequest, type_code, rsp_modify_order, size_of_modify_order_request,
}
use simple_orderbook_v.ByteOrder.{modify_order_request_to_network_order}
use simple_orderbook_v.ByteOrder.RoundTrip.{
  FitsModifyOrderRequest, modify_order_request_host-network,
}
use simple_orderbook_v.Wire.{read, write}
use simple_orderbook_v.Wire.Structs.{header_struct, modify_order_request_struct}
use simple_orderbook_v.Framing.{peek_length}
use simple_orderbook_v.Framing.Casts.{Whole, Handles, struct-Frame}
use simple_orderbook_v.Framing.Frames.{Frame}
use simple_orderbook_v.Framing.Headers.{type-read, peek_length-encode}
use simple_orderbook_v.Server.Handlers.{Machine, header_for, modify_order_reply}
use simple_orderbook_v.Server.Handlers.Clients.{IsModifyOrder}
use simple_orderbook_v.Server.Handlers.Clients.Stream.{modify}
use simple_orderbook_v.Client.Receiver.{Line, process_message, handle_modify_order_response}
use mathlib.Core.List.{append-nil}
use simple_orderbook_v.Client.Receiver.Responses.{modify_order_response_for, line_of, print}

module _ (machine : Machine) where
  open machine use {host}

  modify_order_response-Fits :
      (m : ModifyOrderRequest)
      → IsModifyOrder m
      → FitsModifyOrderRequest (modify_order_response_for m)
  unfolding header_for
  modify_order_response-Fits m i = record {
    header = record { length = i.fits.header.length; sequence = i.fits.header.sequence };
    order_id = i.fits.order_id;
    price = i.fits.price;
    quantity = i.fits.quantity;
  }

  pub modify_order-Whole :
      (m : ModifyOrderRequest)
      → IsModifyOrder m
      → Whole host
          (process_message host)
          modify_order_request_struct
          (modify_order_request_to_network_order host (modify_order_response_for m))
          (modify_order_response_for m)
  unfolding modify_order_request_to_network_order header_for
  modify_order-Whole m i = record {
    stored = record {
      fits = ground (
        arith,
        i.size,
        htonl-lt host m.header.length,
        htonl-lt host m.header.sequence,
        htonll-lt host m.order_id,
        htonl-lt host m.price,
        htonl-lt host m.quantity,
      );
      whole = refl;
    };
    sent_fields = refl;
    got_fields = refl;
  }

  pub modify_order-peek :
      (m : ModifyOrderRequest)
      → IsModifyOrder m
      → peek_length host (modify_order_reply machine m) ≡ size_of_modify_order_request
  unfolding modify_order_reply write modify_order_request_to_network_order header_for
  modify_order-peek m i =
      let length_fits = (modify_order_response-Fits m i).header.length in
      ap (peek_length host) (sym (append-nil _))
      ∙ peek_length-encode host _ _ (host.htonl (modify_order_response_for m).header.length) _ _ []
          (htonl-lt host _ length_fits)
      ∙ ntohl-htonl host _ length_fits
      ∙ i.size

  modify_order-type :
      (m : ModifyOrderRequest) (rest : List ℕ)
      → (read header_struct host (modify_order_reply machine m ++ rest)).type
        ≡ type_code rsp_modify_order
  unfolding modify_order_reply write modify_order_request_to_network_order header_for
  modify_order-type m rest = type-read host _ (type_code rsp_modify_order) _ _ _ rest

  modify_order-dispatch :
      (buffer : List ℕ) (lines : List Line) (n : ℕ)
      → (read header_struct host buffer).type ≡ type_code rsp_modify_order
      → process_message host n buffer lines ≡ handle_modify_order_response host buffer lines
  unfolding process_message
  modify_order-dispatch buffer lines n e = rw e refl

  pub modify_order-Handles :
      (m : ModifyOrderRequest)
      → IsModifyOrder m
      → Handles host
          (process_message host)
          modify_order_request_struct
          (modify_order_request_to_network_order host (modify_order_response_for m))
          (modify_order_response_for m)
          (print (line_of (modify m)))
  unfolding handle_modify_order_response modify_order_reply header_for
  modify_order-Handles m i rest lines e long =
      modify_order-dispatch (modify_order_reply machine m ++ rest) lines _
        (modify_order-type m rest)
      ∙ rw
          (
            e,
            modify_order_request_host-network host (modify_order_response_for m)
                (modify_order_response-Fits m i),
            ltb-false _ _ long,
          )
          refl

  unfoldable pub modify_order-Frame :
      (m : ModifyOrderRequest) → IsModifyOrder m → Frame host (process_message host)
  unfolding modify_order_reply
  modify_order-Frame m i =
      struct-Frame host (process_message host) modify_order_request_struct _
        (modify_order_response_for m) (print (line_of (modify m))) (modify_order-Whole m i)
        (omega arith) (modify_order-peek m i) (modify_order-Handles m i)
