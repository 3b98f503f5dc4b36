-- ===== src/Server/Handlers/Messages.antt =====
-- The messages that the handlers of Orderbook Server/server.cpp send, and their casts of a request's bytes.
-- An order whose side is no enumerator is left out of the model, and an order type that is none is like
-- `GoodTillCancel` to the book, which tests for `FillandKill` only.
use simple_orderbook_v.Common.{
  ℕ, zero, suc, ◌%◌, ◌^◌, min, Option, none, some, List, [], ◌∷◌, ◌==◌, if◌then◌else◌, length, take,
  replicate, unsigned32,
}
use simple_orderbook_v.Network.{Host}
use simple_orderbook_v.Messages.{
  MessageType, type_code, rsp_add_order, rsp_cancel_order, rsp_modify_order, rsp_orderbook_status,
  notify_trade, MessageHeader, AddOrderRequest, CancelOrderRequest, ModifyOrderRequest,
  NetworkLevelInfo, OrderbookStatusResponse, max_levels, size_of_add_order_response,
  size_of_cancel_order_response, size_of_trade_notification, size_of_orderbook_status_response,
}
use simple_orderbook_v.ByteOrder.{
  add_order_response_to_network_order, cancel_order_response_to_network_order,
  modify_order_request_to_network_order, trade_notification_to_network_order,
  status_to_network_order,
}
use simple_orderbook_v.Wire.{write}
use simple_orderbook_v.Wire.Structs.{
  add_order_response_struct, cancel_order_response_struct, modify_order_request_struct,
  trade_notification_struct, orderbook_status_response_struct,
}
use simple_orderbook_v.Order.{
  OrderType, good_till_cancel, fill_and_kill, Side, buy, sell, Trade, LevelInfo,
  OrderbookLevelInfos,
}

-- The machine: its byte order, what `sprintf_s` writes for `"Connected clients: %u"`, and what a status
-- response on the stack holds before it is filled in.
pub record Machine : Type 0 where
  pub host : Host
  pub print_clients : ℕ → List ℕ
  pub stack : OrderbookStatusResponse

-- The casts of the request's bytes to the book's enumerations.

unfoldable pub side_of : ℕ → Option Side
side_of side = if side == 0 then some buy else if side == 1 then some sell else none

unfoldable pub order_type_of : ℕ → OrderType
order_type_of order_type = if order_type == 1 then fill_and_kill else good_till_cancel

unfoldable pub header_for : MessageType → ℕ → ℕ → MessageHeader
header_for type length sequence = record {
  type = type_code type;
  length = length;
  sequence = sequence;
}

-- `strncpy` copies up to the first zero, and fills the array with zeros.
unfoldable pub strncpy : ℕ → List ℕ → List ℕ
strncpy zero text = []
strncpy (suc n) [] = 0 ∷ strncpy n []
strncpy (suc n) (c ∷ text) = if c == 0 then replicate (suc n) 0 else c ∷ strncpy n text

-- A loop over the first levels of an array.
unfoldable pub fill_levels : List LevelInfo → List NetworkLevelInfo → List NetworkLevelInfo
fill_levels [] slots = slots
fill_levels (l ∷ infos) [] = []
fill_levels (l ∷ infos) (slot ∷ slots) =
    record { price = unsigned32 l.price; quantity = l.quantity } ∷ fill_levels infos slots

module _ (machine : Machine) where
  open machine use {host, stack}

  -- The responses.

  unfoldable pub add_order_reply : AddOrderRequest → List ℕ
  unfolding header_for
  add_order_reply request = write add_order_response_struct host (
      add_order_response_to_network_order host (record {
        header = header_for rsp_add_order size_of_add_order_response request.header.sequence;
        client_order_id = request.client_order_id;
        server_order_id = request.client_order_id;
        status = 0;
      }))

  unfoldable pub cancel_order_reply : CancelOrderRequest → List ℕ
  unfolding header_for
  cancel_order_reply request = write cancel_order_response_struct host (
      cancel_order_response_to_network_order host (record {
        header = header_for rsp_cancel_order size_of_cancel_order_response request.header.sequence;
        order_id = request.order_id;
        status = 0;
      }))

  unfoldable pub modify_order_reply : ModifyOrderRequest → List ℕ
  modify_order_reply request = write modify_order_request_struct host (
      modify_order_request_to_network_order host
        (record request { header = record request.header { type = type_code rsp_modify_order } }))

  unfoldable pub trade_notification : Trade → List ℕ
  unfolding header_for
  trade_notification trade = write trade_notification_struct host (
      trade_notification_to_network_order host (record {
        header = header_for notify_trade size_of_trade_notification 0;
        buy_order_id = trade.bid_trade.order_id;
        sell_order_id = trade.ask_trade.order_id;
        price = unsigned32 trade.bid_trade.price;
        quantity = trade.bid_trade.quantity;
      }))

  unfoldable pub status_response : OrderbookLevelInfos → OrderbookStatusResponse
  unfolding header_for fill_levels
  status_response level_infos =
      let bids = min (length level_infos.bids % 2 ^ 32) max_levels in
      let asks = min (length level_infos.asks % 2 ^ 32) max_levels in
      record {
        header = header_for rsp_orderbook_status size_of_orderbook_status_response 0;
        bid_levels_count = bids;
        ask_levels_count = asks;
        bid_levels = fill_levels (take bids level_infos.bids) stack.bid_levels;
        ask_levels = fill_levels (take asks level_infos.asks) stack.ask_levels;
      }

  unfoldable pub status_reply : OrderbookLevelInfos → List ℕ
  unfolding status_response
  status_reply level_infos =
      write orderbook_status_response_struct host
        (status_to_network_order host (status_response level_infos))
