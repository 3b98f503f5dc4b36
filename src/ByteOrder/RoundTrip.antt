-- ===== src/ByteOrder/RoundTrip.antt =====
-- The conversions of Orderbook Server/message_format.h undo one another.
use simple_orderbook_v.Common.{◌<◌, ◌^◌, ◌≡◌, arith}
use simple_orderbook_v.Network.{Host, ntohl-htonl, ntohll-htonll}
use simple_orderbook_v.Messages.{
  MessageHeader, AddOrderRequest, AddOrderResponse, CancelOrderRequest, CancelOrderResponse,
  ModifyOrderRequest, TradeNotification, NetworkLevelInfo,
}
use simple_orderbook_v.ByteOrder.{
  header_to_network_order, header_to_host_order, level_to_network_order, level_to_host_order,
  add_order_request_to_network_order, add_order_request_to_host_order,
  add_order_response_to_network_order, add_order_response_to_host_order,
  cancel_order_request_to_network_order, cancel_order_request_to_host_order,
  cancel_order_response_to_network_order, cancel_order_response_to_host_order,
  modify_order_request_to_network_order, modify_order_request_to_host_order,
  trade_notification_to_network_order, trade_notification_to_host_order,
}

-- The fields fit their types.
pub record IsHeader (m : MessageHeader) : Type 0 where
  pub length : m.length < 2 ^ 32
  pub sequence : m.sequence < 2 ^ 32

pub record FitsAddOrderRequest (m : AddOrderRequest) : Type 0 where
  pub header : IsHeader m.header
  pub price : m.price < 2 ^ 32
  pub quantity : m.quantity < 2 ^ 32
  pub client_order_id : m.client_order_id < 2 ^ 64

pub record FitsAddOrderResponse (m : AddOrderResponse) : Type 0 where
  pub header : IsHeader m.header
  pub client_order_id : m.client_order_id < 2 ^ 64
  pub server_order_id : m.server_order_id < 2 ^ 64

pub record FitsCancelOrderRequest (m : CancelOrderRequest) : Type 0 where
  pub header : IsHeader m.header
  pub order_id : m.order_id < 2 ^ 64

pub record FitsCancelOrderResponse (m : CancelOrderResponse) : Type 0 where
  pub header : IsHeader m.header
  pub order_id : m.order_id < 2 ^ 64

pub record FitsModifyOrderRequest (m : ModifyOrderRequest) : Type 0 where
  pub header : IsHeader m.header
  pub order_id : m.order_id < 2 ^ 64
  pub price : m.price < 2 ^ 32
  pub quantity : m.quantity < 2 ^ 32

pub record FitsTradeNotification (m : TradeNotification) : Type 0 where
  pub header : IsHeader m.header
  pub buy_order_id : m.buy_order_id < 2 ^ 64
  pub sell_order_id : m.sell_order_id < 2 ^ 64
  pub price : m.price < 2 ^ 32
  pub quantity : m.quantity < 2 ^ 32

module _ (host : Host) where
  pub header_host-network :
      (m : MessageHeader)
      → IsHeader m
      → header_to_host_order host (header_to_network_order host m) ≡ m
  unfolding header_to_network_order header_to_host_order
  header_host-network m f = ground (arith, ntohl-htonl host m.length, ntohl-htonl host m.sequence)

  pub level_host-network :
      (l : NetworkLevelInfo)
      → l.price < 2 ^ 32
      → l.quantity < 2 ^ 32
      → level_to_host_order host (level_to_network_order host l) ≡ l
  unfolding level_to_network_order level_to_host_order
  level_host-network l p q = ground (arith, ntohl-htonl host l.price, ntohl-htonl host l.quantity)

  pub add_order_request_host-network :
      (m : AddOrderRequest)
      → FitsAddOrderRequest m
      → add_order_request_to_host_order host (add_order_request_to_network_order host m) ≡ m
  unfolding add_order_request_to_network_order add_order_request_to_host_order
  add_order_request_host-network m f = ground (
    arith,
    ntohl-htonl host m.header.length,
    ntohl-htonl host m.header.sequence,
    ntohl-htonl host m.price,
    ntohl-htonl host m.quantity,
    ntohll-htonll host m.client_order_id,
  )

  pub add_order_response_host-network :
      (m : AddOrderResponse)
      → FitsAddOrderResponse m
      → add_order_response_to_host_order host (add_order_response_to_network_order host m) ≡ m
  unfolding add_order_response_to_network_order add_order_response_to_host_order
  add_order_response_host-network m f = ground (
    arith,
    ntohl-htonl host m.header.length,
    ntohl-htonl host m.header.sequence,
    ntohll-htonll host m.client_order_id,
    ntohll-htonll host m.server_order_id,
  )

  pub cancel_order_request_host-network :
      (m : CancelOrderRequest)
      → FitsCancelOrderRequest m
      → cancel_order_request_to_host_order host (cancel_order_request_to_network_order host m) ≡ m
  unfolding cancel_order_request_to_network_order cancel_order_request_to_host_order
  cancel_order_request_host-network m f = ground (
    arith,
    ntohl-htonl host m.header.length,
    ntohl-htonl host m.header.sequence,
    ntohll-htonll host m.order_id,
  )

  pub cancel_order_response_host-network :
      (m : CancelOrderResponse)
      → FitsCancelOrderResponse m
      → cancel_order_response_to_host_order host (cancel_order_response_to_network_order host m) ≡ m
  unfolding cancel_order_response_to_network_order cancel_order_response_to_host_order
  cancel_order_response_host-network m f = ground (
    arith,
    ntohl-htonl host m.header.length,
    ntohl-htonl host m.header.sequence,
    ntohll-htonll host m.order_id,
  )

  pub modify_order_request_host-network :
      (m : ModifyOrderRequest)
      → FitsModifyOrderRequest m
      → modify_order_request_to_host_order host (modify_order_request_to_network_order host m) ≡ m
  unfolding modify_order_request_to_network_order modify_order_request_to_host_order
  modify_order_request_host-network m f = ground (
    arith,
    ntohl-htonl host m.header.length,
    ntohl-htonl host m.header.sequence,
    ntohll-htonll host m.order_id,
    ntohl-htonl host m.price,
    ntohl-htonl host m.quantity,
  )

  pub trade_notification_host-network :
      (m : TradeNotification)
      → FitsTradeNotification m
      → trade_notification_to_host_order host (trade_notification_to_network_order host m) ≡ m
  unfolding trade_notification_to_network_order trade_notification_to_host_order
  trade_notification_host-network m f = ground (
    arith,
    ntohl-htonl host m.header.length,
    ntohl-htonl host m.header.sequence,
    ntohll-htonll host m.buy_order_id,
    ntohll-htonll host m.sell_order_id,
    ntohl-htonl host m.price,
    ntohl-htonl host m.quantity,
  )
