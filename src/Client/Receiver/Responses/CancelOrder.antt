-- ===== src/Client/Receiver/Responses/CancelOrder.antt =====
-- The reply to a request to cancel an order, from the handler of Orderbook Server/server.cpp to that of Orderbook
-- Client/client.cpp.
use simple_orderbook_v.Common.{ℕ, ◌≡◌, ◌∙◌, refl, sym, ap, List, [], ◌++◌, ltb-false, arith}
use simple_orderbook_v.Network.{htonl-lt, htonll-lt, ntohl-htonl}
use simple_orderbook_v.Messages.{
  CancelOrderRequest, type_code, rsp_cancel_order, size_of_cancel_order_response,
}
use simple_orderbook_v.ByteOrder.{cancel_order_response_to_network_order}
use simple_orderbook_v.ByteOrder.RoundTrip.{
  FitsCancelOrderResponse, cancel_order_response_host-network,
}
use simple_orderbook_v.Wire.{read, write}
use simple_orderbook_v.Wire.Structs.{header_struct, cancel_order_response_struct}
use simple_orderbook_v.Framing.{peek_length}
use simple_orderbook_v.Framing.Casts.{Whole, Handles, struct-Frame}
use simple_orderbook_v.Framing.Frames.{Frame}
use simple_orderbook_v.Framing.Headers.{type-read, peek_length-encode}
use simple_orderbook_v.Server.Handlers.{Machine, header_for, cancel_order_reply}
use simple_orderbook_v.Server.Handlers.Clients.{IsCancelOrder}
use simple_orderbook_v.Server.Handlers.Clients.Stream.{cancel}
use simple_orderbook_v.Client.Receiver.{Line, process_message, handle_cancel_order_response}
use mathlib.Core.List.{append-nil}
use simple_orderbook_v.Client.Receiver.Responses.{cancel_order_response_for, line_of, print}

module _ (machine : Machine) where
  open machine use {host}

  cancel_order_response-Fits :
      (m : CancelOrderRequest)
      → IsCancelOrder m
      → FitsCancelOrderResponse (cancel_order_response_for m)
  unfolding header_for
  cancel_order_response-Fits m i = record {
    header = record { length = omega arith; sequence = i.fits.header.sequence };
    order_id = i.fits.order_id;
  }

  pub cancel_order-Whole :
      (m : CancelOrderRequest)
      → IsCancelOrder m
      → Whole host
          (process_message host)
          cancel_order_response_struct
          (cancel_order_response_to_network_order host (cancel_order_response_for m))
          (cancel_order_response_for m)
  unfolding cancel_order_response_to_network_order header_for
  cancel_order-Whole m i = record {
    stored = record {
      fits =
          ground
            (arith, htonl-lt host 18, htonl-lt host m.header.sequence, htonll-lt host m.order_id);
      whole = refl;
    };
    sent_fields = refl;
    got_fields = refl;
  }

  pub cancel_order-peek :
      (m : CancelOrderRequest)
      → IsCancelOrder m
      → peek_length host (cancel_order_reply machine m) ≡ size_of_cancel_order_response
  unfolding cancel_order_reply write cancel_order_response_to_network_order header_for
  cancel_order-peek m i =
      let length_fits = (cancel_order_response-Fits m i).header.length in
      ap (peek_length host) (sym (append-nil _))
      ∙ peek_length-encode host _ _ (host.htonl (cancel_order_response_for m).header.length) _ _ []
          (htonl-lt host _ length_fits)
      ∙ ntohl-htonl host _ length_fits
      ∙ refl

  cancel_order-type :
      (m : CancelOrderRequest) (rest : List ℕ)
      → (read header_struct host (cancel_order_reply machine m ++ rest)).type
        ≡ type_code rsp_cancel_order
  unfolding cancel_order_reply write cancel_order_response_to_network_order header_for
  cancel_order-type m rest = type-read host _ (type_code rsp_cancel_order) _ _ _ rest

  cancel_order-dispatch :
      (buffer : List ℕ) (lines : List Line) (n : ℕ)
      → (read header_struct host buffer).type ≡ type_code rsp_cancel_order
      → process_message host n buffer lines ≡ handle_cancel_order_response host buffer lines
  unfolding process_message
  cancel_order-dispatch buffer lines n e = rw e refl

  pub cancel_order-Handles :
      (m : CancelOrderRequest)
      → IsCancelOrder m
      → Handles host
          (process_message host)
          cancel_order_response_struct
          (cancel_order_response_to_network_order host (cancel_order_response_for m))
          (cancel_order_response_for m)
          (print (line_of (cancel m)))
  unfolding handle_cancel_order_response cancel_order_reply header_for
  cancel_order-Handles m i rest lines e long =
      cancel_order-dispatch (cancel_order_reply machine m ++ rest) lines _
        (cancel_order-type m rest)
      ∙ rw
          (
            e,
            cancel_order_response_host-network host (cancel_order_response_for m)
                (cancel_order_response-Fits m i),
            ltb-false _ _ long,
          )
          refl

  unfoldable pub cancel_order-Frame :
      (m : CancelOrderRequest) → IsCancelOrder m → Frame host (process_message host)
  unfolding cancel_order_reply
  cancel_order-Frame m i =
      struct-Frame host (process_message host) cancel_order_response_struct _
        (cancel_order_response_for m) (print (line_of (cancel m))) (cancel_order-Whole m i)
        (omega arith) (cancel_order-peek m i) (cancel_order-Handles m i)
