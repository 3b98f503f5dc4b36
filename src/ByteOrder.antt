-- ===== src/ByteOrder.antt =====
-- `toNetworkOrder` and `toHostOrder` of the structs of Orderbook Server/message_format.h.
mod Examples
pub mod Hosts
pub mod Protocol
pub mod RoundTrip
pub mod Status
use simple_orderbook_v.Common.{ℕ, suc, zero, min, List, [], ◌∷◌}
use simple_orderbook_v.Network.{Host, htonll, ntohll}
use simple_orderbook_v.Messages.{
  MessageHeader, AddOrderRequest, AddOrderResponse, CancelOrderRequest, CancelOrderResponse,
  ModifyOrderRequest, TradeNotification, NetworkLevelInfo, OrderbookStatusResponse, max_levels,
}

-- `for (i = 0; i < count && i < MAX_LEVELS; ++i) levels[i].convert();`
unfoldable pub convert_levels :
    (NetworkLevelInfo → NetworkLevelInfo) → ℕ → List NetworkLevelInfo → List NetworkLevelInfo
convert_levels convert zero levels = levels
convert_levels convert (suc n) [] = []
convert_levels convert (suc n) (l ∷ levels) = convert l ∷ convert_levels convert n levels

module _ (host : Host) where
  open host use {htonl, ntohl}

  unfoldable pub header_to_network_order : MessageHeader → MessageHeader
  header_to_network_order m = record m { length = htonl m.length; sequence = htonl m.sequence }

  unfoldable pub header_to_host_order : MessageHeader → MessageHeader
  header_to_host_order m = record m { length = ntohl m.length; sequence = ntohl m.sequence }

  unfoldable pub add_order_request_to_network_order : AddOrderRequest → AddOrderRequest
  unfolding header_to_network_order
  add_order_request_to_network_order m = record m {
    header = header_to_network_order m.header;
    price = htonl m.price;
    quantity = htonl m.quantity;
    client_order_id = htonll host m.client_order_id;
  }

  unfoldable pub add_order_request_to_host_order : AddOrderRequest → AddOrderRequest
  unfolding header_to_host_order
  add_order_request_to_host_order m = record m {
    header = header_to_host_order m.header;
    price = ntohl m.price;
    quantity = ntohl m.quantity;
    client_order_id = ntohll host m.client_order_id;
  }

  unfoldable pub add_order_response_to_network_order : AddOrderResponse → AddOrderResponse
  unfolding header_to_network_order
  add_order_response_to_network_order m = record m {
    header = header_to_network_order m.header;
    client_order_id = htonll host m.client_order_id;
    server_order_id = htonll host m.server_order_id;
  }

  unfoldable pub add_order_response_to_host_order : AddOrderResponse → AddOrderResponse
  unfolding header_to_host_order
  add_order_response_to_host_order m = record m {
    header = header_to_host_order m.header;
    client_order_id = ntohll host m.client_order_id;
    server_order_id = ntohll host m.server_order_id;
  }

  unfoldable pub cancel_order_request_to_network_order : CancelOrderRequest → CancelOrderRequest
  unfolding header_to_network_order
  cancel_order_request_to_network_order m = record m {
    header = header_to_network_order m.header;
    order_id = htonll host m.order_id;
  }

  unfoldable pub cancel_order_request_to_host_order : CancelOrderRequest → CancelOrderRequest
  unfolding header_to_host_order
  cancel_order_request_to_host_order m = record m {
    header = header_to_host_order m.header;
    order_id = ntohll host m.order_id;
  }

  unfoldable pub cancel_order_response_to_network_order : CancelOrderResponse → CancelOrderResponse
  unfolding header_to_network_order
  cancel_order_response_to_network_order m = record m {
    header = header_to_network_order m.header;
    order_id = htonll host m.order_id;
  }

  unfoldable pub cancel_order_response_to_host_order : CancelOrderResponse → CancelOrderResponse
  unfolding header_to_host_order
  cancel_order_response_to_host_order m = record m {
    header = header_to_host_order m.header;
    order_id = ntohll host m.order_id;
  }

  unfoldable pub modify_order_request_to_network_order : ModifyOrderRequest → ModifyOrderRequest
  unfolding header_to_network_order
  modify_order_request_to_network_order m = record m {
    header = header_to_network_order m.header;
    order_id = htonll host m.order_id;
    price = htonl m.price;
    quantity = htonl m.quantity;
  }

  unfoldable pub modify_order_request_to_host_order : ModifyOrderRequest → ModifyOrderRequest
  unfolding header_to_host_order
  modify_order_request_to_host_order m = record m {
    header = header_to_host_order m.header;
    order_id = ntohll host m.order_id;
    price = ntohl m.price;
    quantity = ntohl m.quantity;
  }

  unfoldable pub trade_notification_to_network_order : TradeNotification → TradeNotification
  unfolding header_to_network_order
  trade_notification_to_network_order m = record m {
    header = header_to_network_order m.header;
    buy_order_id = htonll host m.buy_order_id;
    sell_order_id = htonll host m.sell_order_id;
    price = htonl m.price;
    quantity = htonl m.quantity;
  }

  unfoldable pub trade_notification_to_host_order : TradeNotification → TradeNotification
  unfolding header_to_host_order
  trade_notification_to_host_order m = record m {
    header = header_to_host_order m.header;
    buy_order_id = ntohll host m.buy_order_id;
    sell_order_id = ntohll host m.sell_order_id;
    price = ntohl m.price;
    quantity = ntohl m.quantity;
  }

  unfoldable pub level_to_network_order : NetworkLevelInfo → NetworkLevelInfo
  level_to_network_order l = record l { price = htonl l.price; quantity = htonl l.quantity }

  unfoldable pub level_to_host_order : NetworkLevelInfo → NetworkLevelInfo
  level_to_host_order l = record l { price = ntohl l.price; quantity = ntohl l.quantity }

  -- The loops run to the counts as they are after their conversion.

  unfoldable pub status_to_network_order : OrderbookStatusResponse → OrderbookStatusResponse
  status_to_network_order m =
      let bids = htonl m.bid_levels_count in
      let asks = htonl m.ask_levels_count in
      record m {
        header = header_to_network_order m.header;
        bid_levels_count = bids;
        ask_levels_count = asks;
        bid_levels = convert_levels level_to_network_order (min bids max_levels) m.bid_levels;
        ask_levels = convert_levels level_to_network_order (min asks max_levels) m.ask_levels;
      }

  unfoldable pub status_to_host_order : OrderbookStatusResponse → OrderbookStatusResponse
  status_to_host_order m =
      let bids = ntohl m.bid_levels_count in
      let asks = ntohl m.ask_levels_count in
      record m {
        header = header_to_host_order m.header;
        bid_levels_count = bids;
        ask_levels_count = asks;
        bid_levels = convert_levels level_to_host_order (min bids max_levels) m.bid_levels;
        ask_levels = convert_levels level_to_host_order (min asks max_levels) m.ask_levels;
      }
