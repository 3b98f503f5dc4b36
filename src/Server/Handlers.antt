-- ===== src/Server/Handlers.antt =====
-- `processMessage` of Orderbook Server/server.cpp and its handlers, on the bytes of the buffer.
-- A handler that casts the buffer to a struct which is longer than the buffer reads past its end.
pub mod Clients
mod Messages
pub mod Outcomes
pub mod Placed
pub mod Replies
pub mod Settling
pub mod Success
pub mod ZeroLength
use simple_orderbook_v.Common.{
  ℕ, zero, suc, ◌+◌, ◌-◌, ◌%◌, ◌^◌, min, Bool, true, false, Option, none, some, List, [], ◌∷◌, ◌++◌,
  ltb, ◌==◌, if◌then◌else◌, length, take, drop, replicate, signed32, unsigned32,
}
use simple_orderbook_v.Outcome.{Outcome, returned, undefined, unmodelled, ◌>>=◌}
use simple_orderbook_v.Network.{Host}
use simple_orderbook_v.Messages.{
  MessageType, type_code, req_quit, req_echo, rsp_echo, req_listusers, rsp_listusers, req_add_order,
  rsp_add_order, req_cancel_order, rsp_cancel_order, req_modify_order, rsp_modify_order,
  req_orderbook_status, rsp_orderbook_status, notify_trade, cmd_error, MessageHeader, EchoRequest,
  EchoResponse, AddOrderRequest, AddOrderResponse, CancelOrderRequest, CancelOrderResponse,
  ModifyOrderRequest, TradeNotification, NetworkLevelInfo, OrderbookStatusResponse, max_levels,
  size_of_header, size_of_echo_request, size_of_add_order_request, size_of_cancel_order_request,
  size_of_modify_order_request, size_of_add_order_response, size_of_cancel_order_response,
  size_of_trade_notification, size_of_orderbook_status_response,
}
use simple_orderbook_v.ByteOrder.{
  header_to_network_order, add_order_request_to_host_order, add_order_response_to_network_order,
  cancel_order_request_to_host_order, cancel_order_response_to_network_order,
  modify_order_request_to_host_order, modify_order_request_to_network_order,
  trade_notification_to_network_order, status_to_network_order,
}
use simple_orderbook_v.Memory.{u32, store}
use simple_orderbook_v.Wire.{Struct, read, write, write_over}
use simple_orderbook_v.Wire.Structs.{
  header_struct, echo_request_struct, echo_response_struct, add_order_request_struct,
  add_order_response_struct, cancel_order_request_struct, cancel_order_response_struct,
  modify_order_request_struct, trade_notification_struct, orderbook_status_response_struct,
}
use simple_orderbook_v.Order.{
  OrderType, good_till_cancel, fill_and_kill, Side, buy, sell, OrderModify, Trade, LevelInfo,
  OrderbookLevelInfos, new_order,
}
use simple_orderbook_v.Index.{write as write_heap}
use simple_orderbook_v.Matching.{Trades}
use simple_orderbook_v.Orderbook.{add_order, cancel_order, modify_order, get_order_infos}
use simple_orderbook_v.Server.{TcpServer, Socket}
pub use Messages.{Machine}
unfoldable pub use Messages.{
  side_of, order_type_of, header_for, strncpy, fill_levels, add_order_reply, cancel_order_reply,
  modify_order_reply, trade_notification, status_response, status_reply,
}

module _ (machine : Machine) (fuel : ℕ) (socket : Socket) where
  open machine use {host, print_clients}

  unfoldable pub send : List ℕ → TcpServer → TcpServer
  send bytes s = record s { sent = s.sent ++ ((socket, bytes) ∷ []) }

  unfoldable pub send_trade_notification : Trade → TcpServer → TcpServer
  unfolding send
  send_trade_notification trade = send (trade_notification machine trade)

  unfoldable pub send_trade_notifications : Trades → TcpServer → TcpServer
  unfolding send_trade_notification
  send_trade_notifications [] s = s
  send_trade_notifications (trade ∷ trades) s =
      send_trade_notifications trades (send_trade_notification trade s)

  -- The header of the request is in network order still.
  unfoldable pub handle_echo_request : List ℕ → TcpServer → Outcome (List ℕ × TcpServer)
  unfolding send header_for strncpy
  handle_echo_request buffer s =
      let request = read echo_request_struct host buffer in
      if ltb (length buffer) size_of_echo_request
      then undefined
      else returned (
        buffer,
        send
            (write echo_response_struct host (record {
              header =
                  header_to_network_order host
                    (header_for rsp_echo size_of_echo_request request.header.sequence);
              message = strncpy 256 request.message;
            }))
            s,
      )

  unfoldable pub handle_quit_request : List ℕ → TcpServer → Outcome (List ℕ × TcpServer)
  unfolding send header_for
  handle_quit_request buffer s = returned (
    buffer,
    send
        (write header_struct host
          (header_to_network_order host (header_for rsp_echo size_of_header 0)))
        s,
  )

  -- The buffer has 512 bytes, and `send` reads as many as the length in network order says.
  unfoldable pub handle_list_users_request : List ℕ → TcpServer → Outcome (List ℕ × TcpServer)
  unfolding send header_for
  handle_list_users_request buffer s =
      let num_clients = host.htonl (length s.clients % 2 ^ 32) in
      let header =
        header_to_network_order host (header_for rsp_listusers (size_of_header + 4 + 256) 0) in
      let response =
        write header_struct host header
        ++ (store host u32 num_clients ++ print_clients (host.ntohl num_clients)) in
      let response_buffer = take 512 (response ++ replicate 512 0) in
      if ltb 512 header.length
      then undefined
      else returned (buffer, send (take header.length response_buffer) s)

  unfoldable pub serve_add_order : AddOrderRequest → TcpServer → Outcome TcpServer
  unfolding send send_trade_notifications
  serve_add_order request s = elim (side_of request.side) [
    | none ↦ unmodelled
    | some side ↦ (do
      let order =
          new_order (order_type_of request.order_type) request.client_order_id side
            (signed32 request.price) request.quantity
      let stored = record s.orderbook { heap = write_heap s.orderbook.heap s.next_address order }
      (trades, book) ← add_order fuel s.next_address stored
      let answered =
          send (add_order_reply machine request)
            (record s { orderbook = book; next_address = suc s.next_address })
      returned (send_trade_notifications trades answered))
  ]

  unfoldable pub handle_add_order_request : List ℕ → TcpServer → Outcome (List ℕ × TcpServer)
  handle_add_order_request buffer s =
      let request =
        add_order_request_to_host_order host (read add_order_request_struct host buffer) in
      let converted = write_over (write add_order_request_struct host request) buffer in
      if ltb (length buffer) size_of_add_order_request
      then undefined
      else (serve_add_order request s >>= λ t. returned (converted, t))

  unfoldable pub serve_cancel_order : CancelOrderRequest → TcpServer → Outcome TcpServer
  unfolding send
  serve_cancel_order request s = do
    book ← cancel_order request.order_id s.orderbook
    returned (send (cancel_order_reply machine request) (record s { orderbook = book }))

  unfoldable pub handle_cancel_order_request : List ℕ → TcpServer → Outcome (List ℕ × TcpServer)
  handle_cancel_order_request buffer s =
      let request =
        cancel_order_request_to_host_order host (read cancel_order_request_struct host buffer) in
      let converted = write_over (write cancel_order_request_struct host request) buffer in
      if ltb (length buffer) size_of_cancel_order_request
      then undefined
      else (serve_cancel_order request s >>= λ t. returned (converted, t))

  -- `make_shared` is called for an order that is in the book; an address may be left out otherwise.
  unfoldable pub serve_modify_order : ModifyOrderRequest → TcpServer → Outcome TcpServer
  unfolding send send_trade_notifications
  serve_modify_order request s = elim (side_of request.side) [
    | none ↦ unmodelled
    | some side ↦ (do
      let modify : OrderModify = record {
        order_id = request.order_id;
        price = signed32 request.price;
        side = side;
        quantity = request.quantity;
      }
      (trades, book) ← modify_order fuel s.next_address modify s.orderbook
      let answered =
          send (modify_order_reply machine request)
            (record s { orderbook = book; next_address = suc s.next_address })
      returned (send_trade_notifications trades answered))
  ]

  unfoldable pub handle_modify_order_request : List ℕ → TcpServer → Outcome (List ℕ × TcpServer)
  handle_modify_order_request buffer s =
      let request =
        modify_order_request_to_host_order host (read modify_order_request_struct host buffer) in
      let converted = write_over (write modify_order_request_struct host request) buffer in
      if ltb (length buffer) size_of_modify_order_request
      then undefined
      else (serve_modify_order request s >>= λ t. returned (converted, t))

  unfoldable pub handle_orderbook_status_request : List ℕ → TcpServer → Outcome (List ℕ × TcpServer)
  unfolding send
  handle_orderbook_status_request buffer s =
      returned (buffer, send (status_reply machine (get_order_infos s.orderbook)) s)

  unfoldable pub handle_unknown_request : ℕ → List ℕ → TcpServer → Outcome (List ℕ × TcpServer)
  unfolding send header_for
  handle_unknown_request sequence buffer s = returned (
    buffer,
    send
        (write header_struct host
          (header_to_network_order host (header_for cmd_error size_of_header sequence)))
        s,
  )

  -- `length` is passed to handlers that do not read it.
  unfoldable pub process_message : ℕ → List ℕ → TcpServer → Outcome (List ℕ × TcpServer)
  process_message length buffer s =
      let header = read header_struct host buffer in
      if header.type == type_code req_echo
      then handle_echo_request buffer s
      else if header.type == type_code req_quit
      then handle_quit_request buffer s
      else if header.type == type_code req_listusers
      then handle_list_users_request buffer s
      else if header.type == type_code req_add_order
      then handle_add_order_request buffer s
      else if header.type == type_code req_cancel_order
      then handle_cancel_order_request buffer s
      else if header.type == type_code req_modify_order
      then handle_modify_order_request buffer s
      else if header.type == type_code req_orderbook_status
      then handle_orderbook_status_request buffer s
      else handle_unknown_request header.sequence buffer s
