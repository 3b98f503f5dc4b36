-- ===== src/Server/Handlers/Clients.antt =====
-- The server of Orderbook Server/server.cpp on the bytes that Orderbook Client/client.cpp sends.
pub mod AddOrder
pub mod CancelOrder
pub mod ModifyOrder
pub mod Stream
use simple_orderbook_v.Common.{
  ℕ, suc, ◌+◌, ◌^◌, ◌<◌, ◌≤◌, ◌≡◌, ◌∙◌, refl, sym, ap, true, false, List, [], ◌∷◌, ◌++◌, ltb,
  ltb-false, length, length-append, drop, map, All, arith, if◌then◌else◌, ◌==◌,
}
use simple_orderbook_v.Outcome.{Outcome, returned, ◌>>=◌}
use simple_orderbook_v.Network.{Host, htonl-lt, htonll-lt, ntohl-htonl}
use simple_orderbook_v.Messages.{
  AddOrderRequest, CancelOrderRequest, ModifyOrderRequest, type_code, req_add_order,
  req_cancel_order, req_modify_order, size_of_add_order_request, size_of_cancel_order_request,
  size_of_modify_order_request,
}
use simple_orderbook_v.ByteOrder.{
  header_to_network_order, add_order_request_to_network_order, add_order_request_to_host_order,
  cancel_order_request_to_network_order, cancel_order_request_to_host_order,
  modify_order_request_to_network_order, modify_order_request_to_host_order,
}
use simple_orderbook_v.ByteOrder.RoundTrip.{
  FitsAddOrderRequest, FitsCancelOrderRequest, FitsModifyOrderRequest,
  add_order_request_host-network, cancel_order_request_host-network,
  modify_order_request_host-network,
}
use simple_orderbook_v.Wire.{Struct, IsStored, read, write, read-write, length-write, write_over}
use simple_orderbook_v.Wire.Structs.{
  header_struct, add_order_request_struct, cancel_order_request_struct, modify_order_request_struct,
}
use simple_orderbook_v.Framing.{peek_length, process_message_buffer}
use simple_orderbook_v.Framing.Casts.{Whole, Handles, struct-Frame}
use simple_orderbook_v.Framing.Frames.{Frame}
use simple_orderbook_v.Framing.Headers.{type-read, peek_length-encode}
use simple_orderbook_v.Server.{TcpServer, Socket}
use simple_orderbook_v.Server.Handlers.{
  Machine, process_message, handle_add_order_request, serve_add_order, handle_cancel_order_request,
  serve_cancel_order, handle_modify_order_request, serve_modify_order,
}
use mathlib.Core.List.{append-nil}

-- A request as a client sends it: its header names its type and its length, and its fields fit.

pub record IsAddOrder (m : AddOrderRequest) : Type 0 where
  pub fits : FitsAddOrderRequest m
  pub type : m.header.type ≡ type_code req_add_order
  pub size : m.header.length ≡ size_of_add_order_request
  pub order_type : m.order_type < 2 ^ 8
  pub side : m.side < 2 ^ 8

pub record IsCancelOrder (m : CancelOrderRequest) : Type 0 where
  pub fits : FitsCancelOrderRequest m
  pub type : m.header.type ≡ type_code req_cancel_order
  pub size : m.header.length ≡ size_of_cancel_order_request

pub record IsModifyOrder (m : ModifyOrderRequest) : Type 0 where
  pub fits : FitsModifyOrderRequest m
  pub type : m.header.type ≡ type_code req_modify_order
  pub size : m.header.length ≡ size_of_modify_order_request
  pub side : m.side < 2 ^ 8
