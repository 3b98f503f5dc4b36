-- ===== src/Client/Receiver.antt =====
-- `processMessage` of Orderbook Client/client.cpp and its handlers, on the bytes of the buffer. What they
-- print is data; `cout` of a `char` array ends at its first zero. A handler that casts the buffer to a
-- struct which is longer than the buffer reads past its end, and so does text without a zero.

mod Quit
pub mod Replies
pub mod Responses
pub mod Levels
pub mod Status
use simple_orderbook_v.Common.{
  ℕ, ◌+◌, Bool, ◌||◌, Option, none, some, List, [], ◌∷◌, ◌++◌, ltb, ◌==◌, if◌then◌else◌, length,
  take, drop,
}
use simple_orderbook_v.Outcome.{Outcome, returned, undefined, ◌>>=◌}
use simple_orderbook_v.Network.{Host}
use simple_orderbook_v.Memory.{u32, load}
use simple_orderbook_v.Messages.{
  type_code, rsp_echo, rsp_listusers, rsp_add_order, rsp_cancel_order, rsp_modify_order,
  rsp_orderbook_status, notify_trade, cmd_error, max_levels, NetworkLevelInfo,
  OrderbookStatusResponse, size_of_header, size_of_echo_request, size_of_add_order_response,
  size_of_cancel_order_response, size_of_modify_order_request, size_of_trade_notification,
  size_of_orderbook_status_response,
}
use simple_orderbook_v.ByteOrder.{
  add_order_response_to_host_order, cancel_order_response_to_host_order,
  modify_order_request_to_host_order, trade_notification_to_host_order, status_to_host_order,
}
use simple_orderbook_v.Framing.{Received, receive}
use simple_orderbook_v.Client.{TcpClient, receiver_ends}
use simple_orderbook_v.Wire.{Struct, read, write, write_over}
use simple_orderbook_v.Wire.Structs.{
  header_struct, add_order_response_struct, cancel_order_response_struct,
  modify_order_request_struct, trade_notification_struct, orderbook_status_response_struct,
}

-- What is printed for a message.
pub data Line : Type 0 where
  echo_response list_users_response : List ℕ → Line
  order_added : (client_id server_id : ℕ) (success : Bool) → Line
  order_canceled : (order_id : ℕ) (success : Bool) → Line
  order_modified : (order_id price quantity : ℕ) → Line
  orderbook_status : (bids asks : List NetworkLevelInfo) → Line
  trade_executed : (buy_order_id sell_order_id price quantity : ℕ) → Line
  error_response : (sequence : ℕ) → Line
  unknown_message_type : (type : ℕ) → Line

-- The characters up to the first zero.
unfoldable pub text_of : List ℕ → Option (List ℕ)
text_of [] = none
text_of (c ∷ rest) =
    let later = text_of rest in
    if c == 0 then some [] else elim later [ none ↦ none | some text ↦ some (c ∷ text) ]

abbrev print_text :
    (List ℕ → Line) → Option (List ℕ) → List ℕ → List Line → Outcome (List ℕ × List Line)
print_text line none buffer lines = undefined
print_text line (some text) buffer lines = returned (buffer, lines ++ (line text ∷ []))

module _ (host : Host) where
  unfoldable pub handle_echo_response : List ℕ → List Line → Outcome (List ℕ × List Line)
  unfolding text_of
  handle_echo_response buffer lines =
      print_text echo_response (text_of (drop size_of_header buffer)) buffer lines

  unfoldable pub handle_list_users_response : List ℕ → List Line → Outcome (List ℕ × List Line)
  unfolding text_of
  handle_list_users_response buffer lines =
      print_text list_users_response (text_of (drop (size_of_header + 4) buffer)) buffer lines

  unfoldable pub handle_add_order_response : List ℕ → List Line → Outcome (List ℕ × List Line)
  handle_add_order_response buffer lines =
      let response =
        add_order_response_to_host_order host (read add_order_response_struct host buffer) in
      if ltb (length buffer) size_of_add_order_response
      then undefined
      else returned (
        write_over (write add_order_response_struct host response) buffer,
        lines
            ++ (order_added response.client_order_id response.server_order_id (response.status == 0)
                ∷ []),
      )

  unfoldable pub handle_cancel_order_response : List ℕ → List Line → Outcome (List ℕ × List Line)
  handle_cancel_order_response buffer lines =
      let response =
        cancel_order_response_to_host_order host (read cancel_order_response_struct host buffer) in
      if ltb (length buffer) size_of_cancel_order_response
      then undefined
      else returned (
        write_over (write cancel_order_response_struct host response) buffer,
        lines ++ (order_canceled response.order_id (response.status == 0) ∷ []),
      )

  unfoldable pub handle_modify_order_response : List ℕ → List Line → Outcome (List ℕ × List Line)
  handle_modify_order_response buffer lines =
      let response =
        modify_order_request_to_host_order host (read modify_order_request_struct host buffer) in
      if ltb (length buffer) size_of_modify_order_request
      then undefined
      else returned (
        write_over (write modify_order_request_struct host response) buffer,
        lines ++ (order_modified response.order_id response.price response.quantity ∷ []),
      )

  unfoldable pub handle_trade_notification : List ℕ → List Line → Outcome (List ℕ × List Line)
  handle_trade_notification buffer lines =
      let notification =
        trade_notification_to_host_order host (read trade_notification_struct host buffer) in
      if ltb (length buffer) size_of_trade_notification
      then undefined
      else returned (
        write_over (write trade_notification_struct host notification) buffer,
        lines
            ++ (trade_executed notification.buy_order_id notification.sell_order_id
                  notification.price notification.quantity
                ∷ []),
      )

  unfoldable pub handle_error_response : List ℕ → List Line → Outcome (List ℕ × List Line)
  handle_error_response buffer lines =
      returned (buffer, lines ++ (error_response (read header_struct host buffer).sequence ∷ []))

  -- The loops over the levels run to the counts, which may be past the arrays.
  unfoldable pub handle_orderbook_status_response :
      List ℕ → List Line → Outcome (List ℕ × List Line)
  handle_orderbook_status_response buffer lines =
      let response =
        status_to_host_order host (read orderbook_status_response_struct host buffer) in
      if ltb (length buffer) size_of_orderbook_status_response
      then undefined
      else if ltb max_levels response.bid_levels_count || ltb max_levels response.ask_levels_count
      then undefined
      else returned (
        write_over (write orderbook_status_response_struct host response) buffer,
        lines
            ++ (orderbook_status (take response.bid_levels_count response.bid_levels)
                  (take response.ask_levels_count response.ask_levels)
                ∷ []),
      )

  -- `length` is passed to handlers that do not read it.
  unfoldable pub process_message : ℕ → List ℕ → List Line → Outcome (List ℕ × List Line)
  process_message length buffer lines =
      let header = read header_struct host buffer in
      if header.type == type_code rsp_echo
      then handle_echo_response buffer lines
      else if header.type == type_code rsp_listusers
      then handle_list_users_response buffer lines
      else if header.type == type_code rsp_add_order
      then handle_add_order_response buffer lines
      else if header.type == type_code rsp_cancel_order
      then handle_cancel_order_response buffer lines
      else if header.type == type_code rsp_modify_order
      then handle_modify_order_response buffer lines
      else if header.type == type_code rsp_orderbook_status
      then handle_orderbook_status_response buffer lines
      else if header.type == type_code notify_trade
      then handle_trade_notification buffer lines
      else if header.type == type_code cmd_error
      then handle_error_response buffer lines
      else returned (buffer, lines ++ (unknown_message_type header.type ∷ []))

  -- What the thread has printed when it ends.
  unfoldable pub receiver_function : ℕ → List Received → TcpClient → Outcome (List Line × TcpClient)
  unfolding receive receiver_ends
  receiver_function rounds received c =
      receive host process_message rounds received [] [] >>= λ (buffer, lines).
      returned (lines, receiver_ends c)
