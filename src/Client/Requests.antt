-- ===== src/Client/Requests.antt =====
-- The requests of Orderbook Client/client.cpp, `sendEchoRequest` to `sendOrderbookStatusRequest`.
pub mod Read
use simple_orderbook_v.Common.{
  ℕ, zero, suc, ◌+◌, ◌-◌, ◌%◌, ◌^◌, Bool, true, false, not, List, [], ◌∷◌, ◌++◌, take, length,
  if◌then◌else◌,
}
use simple_orderbook_v.Network.{Host}
use simple_orderbook_v.Messages.{
  MessageType, type_code, req_quit, req_echo, req_listusers, req_add_order, req_cancel_order,
  req_modify_order, req_orderbook_status, MessageHeader, EchoRequest, AddOrderRequest,
  CancelOrderRequest, ModifyOrderRequest, size_of_header, size_of_echo_request,
  size_of_add_order_request, size_of_cancel_order_request, size_of_modify_order_request,
}
use simple_orderbook_v.ByteOrder.{
  header_to_network_order, add_order_request_to_network_order,
  cancel_order_request_to_network_order, modify_order_request_to_network_order,
}
use simple_orderbook_v.Client.{
  TcpClient, Sent, header_only, echo, add_order, cancel_order, modify_order,
}

abbrev pub header_of : MessageType → ℕ → MessageHeader
header_of type length = record { type = type_code type; length = length; sequence = 0 }

abbrev zeros : ℕ → List ℕ
zeros zero = []
zeros (suc n) = 0 ∷ zeros n

-- `send`, in a client that is connected.
abbrev pub send : Sent → TcpClient → TcpClient
send message c = if not c.connected then c else record c { sent = c.sent ++ (message ∷ []) }

module _ (host : Host) where
  -- `strncpy_s` with `_TRUNCATE` copies at most 255 characters into the array of zeros.
  unfoldable pub send_echo_request : List ℕ → TcpClient → TcpClient
  send_echo_request message = send (
      echo (record {
        header = header_to_network_order host (header_of req_echo size_of_echo_request);
        message = take 255 message ++ zeros (256 - length (take 255 message));
      }))

  unfoldable pub send_quit_request : TcpClient → TcpClient
  send_quit_request =
      send (header_only (header_to_network_order host (header_of req_quit size_of_header)))

  unfoldable pub send_list_users_request : TcpClient → TcpClient
  send_list_users_request =
      send (header_only (header_to_network_order host (header_of req_listusers size_of_header)))

  unfoldable pub send_orderbook_status_request : TcpClient → TcpClient
  send_orderbook_status_request =
      send
        (header_only (header_to_network_order host (header_of req_orderbook_status size_of_header)))

  -- `nextOrderId_++` on a `uint64_t`.
  unfoldable pub send_add_order_request : ℕ → ℕ → ℕ → ℕ → TcpClient → TcpClient
  send_add_order_request order_type side price quantity c =
      if not c.connected then c else record c {
        next_order_id = (c.next_order_id + 1) % 2 ^ 64;
        sent =
            c.sent
            ++ (add_order (
                  add_order_request_to_network_order host (record {
                    header = header_of req_add_order size_of_add_order_request;
                    order_type = order_type;
                    side = side;
                    price = price;
                    quantity = quantity;
                    client_order_id = c.next_order_id;
                  }))
                ∷ []);
      }

  unfoldable pub send_cancel_order_request : ℕ → TcpClient → TcpClient
  send_cancel_order_request order_id = send (
      cancel_order (
        cancel_order_request_to_network_order host (record {
          header = header_of req_cancel_order size_of_cancel_order_request;
          order_id = order_id;
        })))

  unfoldable pub send_modify_order_request : ℕ → ℕ → ℕ → ℕ → TcpClient → TcpClient
  send_modify_order_request order_id side price quantity = send (
      modify_order (
        modify_order_request_to_network_order host (record {
          header = header_of req_modify_order size_of_modify_order_request;
          order_id = order_id;
          side = side;
          price = price;
          quantity = quantity;
        })))
