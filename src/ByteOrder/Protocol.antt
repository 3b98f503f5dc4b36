-- ===== src/ByteOrder/Protocol.antt =====
-- The messages for orders of Orderbook Server/message_format.h as bytes: what a sender hands to `send`, and
-- what a receiver has after the cast. A status response is not among them: its `toNetworkOrder` converts
-- the levels that are filled only.
use simple_orderbook_v.Common.{ℕ, List}
use simple_orderbook_v.Network.{Host}
use simple_orderbook_v.Memory.Layout.{FitsLayout}
use simple_orderbook_v.Messages.{
  AddOrderRequest, AddOrderResponse, CancelOrderRequest, CancelOrderResponse, ModifyOrderRequest,
  TradeNotification,
}
use simple_orderbook_v.ByteOrder.{
  add_order_request_to_network_order, add_order_request_to_host_order,
  add_order_response_to_network_order, add_order_response_to_host_order,
  cancel_order_request_to_network_order, cancel_order_request_to_host_order,
  cancel_order_response_to_network_order, cancel_order_response_to_host_order,
  modify_order_request_to_network_order, modify_order_request_to_host_order,
  trade_notification_to_network_order, trade_notification_to_host_order,
}
use simple_orderbook_v.Wire.{read, write}
use simple_orderbook_v.Wire.Structs.{
  add_order_request_struct, add_order_response_struct, cancel_order_request_struct,
  cancel_order_response_struct, modify_order_request_struct, trade_notification_struct,
}
use simple_orderbook_v.Wire.Hosts.{network_bytes}

pub data Message : Type 0 where
  add_order_request : AddOrderRequest → Message
  add_order_response : AddOrderResponse → Message
  cancel_order_request : CancelOrderRequest → Message
  cancel_order_response : CancelOrderResponse → Message
  modify_order_request : ModifyOrderRequest → Message
  trade_notification : TradeNotification → Message

-- The struct that a receiver casts to.
pub data Kind : Type 0 where
  an_add_order_request an_add_order_response a_cancel_order_request a_cancel_order_response : Kind
  a_modify_order_request a_trade_notification : Kind

abbrev pub kind_of : Message → Kind
kind_of (Message.add_order_request m) = an_add_order_request
kind_of (Message.add_order_response m) = an_add_order_response
kind_of (Message.cancel_order_request m) = a_cancel_order_request
kind_of (Message.cancel_order_response m) = a_cancel_order_response
kind_of (Message.modify_order_request m) = a_modify_order_request
kind_of (Message.trade_notification m) = a_trade_notification

-- The bytes that the sender hands to `send`.
abbrev pub on_wire : Host → Message → List ℕ
on_wire host (Message.add_order_request m) =
    write add_order_request_struct host (add_order_request_to_network_order host m)
on_wire host (Message.add_order_response m) =
    write add_order_response_struct host (add_order_response_to_network_order host m)
on_wire host (Message.cancel_order_request m) =
    write cancel_order_request_struct host (cancel_order_request_to_network_order host m)
on_wire host (Message.cancel_order_response m) =
    write cancel_order_response_struct host (cancel_order_response_to_network_order host m)
on_wire host (Message.modify_order_request m) =
    write modify_order_request_struct host (modify_order_request_to_network_order host m)
on_wire host (Message.trade_notification m) =
    write trade_notification_struct host (trade_notification_to_network_order host m)

-- The message that the receiver has after the cast and `toHostOrder`.
abbrev pub read_as : Host → Kind → List ℕ → Message
read_as host an_add_order_request bytes =
    Message.add_order_request
      (add_order_request_to_host_order host (read add_order_request_struct host bytes))
read_as host an_add_order_response bytes =
    Message.add_order_response
      (add_order_response_to_host_order host (read add_order_response_struct host bytes))
read_as host a_cancel_order_request bytes =
    Message.cancel_order_request
      (cancel_order_request_to_host_order host (read cancel_order_request_struct host bytes))
read_as host a_cancel_order_response bytes =
    Message.cancel_order_response
      (cancel_order_response_to_host_order host (read cancel_order_response_struct host bytes))
read_as host a_modify_order_request bytes =
    Message.modify_order_request
      (modify_order_request_to_host_order host (read modify_order_request_struct host bytes))
read_as host a_trade_notification bytes =
    Message.trade_notification
      (trade_notification_to_host_order host (read trade_notification_struct host bytes))

-- Each field fits its type.
abbrev pub FitsFields : Message → Type 0
FitsFields (Message.add_order_request m) =
    FitsLayout add_order_request_struct.layout (add_order_request_struct.fields m)
FitsFields (Message.add_order_response m) =
    FitsLayout add_order_response_struct.layout (add_order_response_struct.fields m)
FitsFields (Message.cancel_order_request m) =
    FitsLayout cancel_order_request_struct.layout (cancel_order_request_struct.fields m)
FitsFields (Message.cancel_order_response m) =
    FitsLayout cancel_order_response_struct.layout (cancel_order_response_struct.fields m)
FitsFields (Message.modify_order_request m) =
    FitsLayout modify_order_request_struct.layout (modify_order_request_struct.fields m)
FitsFields (Message.trade_notification m) =
    FitsLayout trade_notification_struct.layout (trade_notification_struct.fields m)

-- The fields in their order, each with its highest byte first.
abbrev pub big_endian : Message → List ℕ
big_endian (Message.add_order_request m) =
    network_bytes add_order_request_struct.layout (add_order_request_struct.fields m)
big_endian (Message.add_order_response m) =
    network_bytes add_order_response_struct.layout (add_order_response_struct.fields m)
big_endian (Message.cancel_order_request m) =
    network_bytes cancel_order_request_struct.layout (cancel_order_request_struct.fields m)
big_endian (Message.cancel_order_response m) =
    network_bytes cancel_order_response_struct.layout (cancel_order_response_struct.fields m)
big_endian (Message.modify_order_request m) =
    network_bytes modify_order_request_struct.layout (modify_order_request_struct.fields m)
big_endian (Message.trade_notification m) =
    network_bytes trade_notification_struct.layout (trade_notification_struct.fields m)
