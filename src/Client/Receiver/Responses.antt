-- ===== src/Client/Receiver/Responses.antt =====
-- The replies of Orderbook Server/server.cpp as messages of the receiving loop of Orderbook
-- Client/client.cpp.
pub mod AddOrder
pub mod CancelOrder
pub mod ModifyOrder
use simple_orderbook_v.Common.{
  ℕ, ◌≡◌, ◌∙◌, refl, sym, ap, true, List, [], ◌∷◌, ◌++◌, ltb-false, arith,
}
use simple_orderbook_v.Outcome.{Outcome, returned}
use simple_orderbook_v.Network.{htonl-lt, htonll-lt, ntohl-htonl}
use simple_orderbook_v.Messages.{
  AddOrderRequest, AddOrderResponse, CancelOrderRequest, CancelOrderResponse, ModifyOrderRequest,
  type_code, rsp_add_order, rsp_cancel_order, rsp_modify_order, size_of_add_order_response,
  size_of_cancel_order_response, size_of_modify_order_request,
}
use simple_orderbook_v.ByteOrder.{
  add_order_response_to_network_order, cancel_order_response_to_network_order,
  modify_order_request_to_network_order,
}
use simple_orderbook_v.ByteOrder.RoundTrip.{
  FitsAddOrderResponse, FitsCancelOrderResponse, FitsModifyOrderRequest,
  add_order_response_host-network, cancel_order_response_host-network,
  modify_order_request_host-network,
}
use simple_orderbook_v.Wire.{read, write}
use simple_orderbook_v.Wire.Structs.{
  header_struct, add_order_response_struct, cancel_order_response_struct,
  modify_order_request_struct,
}
use simple_orderbook_v.Framing.{peek_length}
use simple_orderbook_v.Framing.Casts.{Whole, Handles, struct-Frame}
use simple_orderbook_v.Framing.Frames.{Frame}
use simple_orderbook_v.Framing.Headers.{type-read, peek_length-encode}
use simple_orderbook_v.Server.Handlers.{
  Machine, header_for, add_order_reply, cancel_order_reply, modify_order_reply,
}
use simple_orderbook_v.Server.Handlers.Clients.{IsAddOrder, IsCancelOrder, IsModifyOrder}
use simple_orderbook_v.Server.Handlers.Clients.Stream.{Request, add, cancel, modify}
use simple_orderbook_v.Client.Receiver.{
  Line, order_added, order_canceled, order_modified, process_message, handle_add_order_response,
  handle_cancel_order_response, handle_modify_order_response,
}
use mathlib.Core.List.{append-nil}

-- The responses in the host's byte order.

abbrev pub add_order_response_for : AddOrderRequest → AddOrderResponse
add_order_response_for m = record {
  header = header_for rsp_add_order size_of_add_order_response m.header.sequence;
  client_order_id = m.client_order_id;
  server_order_id = m.client_order_id;
  status = 0;
}

abbrev pub cancel_order_response_for : CancelOrderRequest → CancelOrderResponse
cancel_order_response_for m = record {
  header = header_for rsp_cancel_order size_of_cancel_order_response m.header.sequence;
  order_id = m.order_id;
  status = 0;
}

abbrev pub modify_order_response_for : ModifyOrderRequest → ModifyOrderRequest
modify_order_response_for m = record m {
  header = record m.header { type = type_code rsp_modify_order };
}

abbrev pub line_of : Request → Line
line_of (add m) = order_added m.client_order_id m.client_order_id true
line_of (cancel m) = order_canceled m.order_id true
line_of (modify m) = order_modified m.order_id m.price m.quantity

abbrev pub print : Line → List Line → Outcome (List Line)
print line lines = returned (lines ++ (line ∷ []))
