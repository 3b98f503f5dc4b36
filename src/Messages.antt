-- ===== src/Messages.antt =====
-- The packed structs of Orderbook Server/message_format.h (the client's copy has the same text) and
-- their conversions to and from network byte order, field by field.
use simple_orderbook_v.Common.{ℕ, List}

pub data MessageType : Type 0 where
  unknown req_quit req_echo rsp_echo req_listusers rsp_listusers : MessageType
  req_add_order rsp_add_order req_cancel_order rsp_cancel_order : MessageType
  req_modify_order rsp_modify_order req_orderbook_status rsp_orderbook_status : MessageType
  notify_trade cmd_test cmd_error : MessageType

abbrev pub type_code : MessageType → ℕ
type_code unknown = 0x00
type_code req_quit = 0x01
type_code req_echo = 0x02
type_code rsp_echo = 0x03
type_code req_listusers = 0x04
type_code rsp_listusers = 0x05
type_code req_add_order = 0x10
type_code rsp_add_order = 0x11
type_code req_cancel_order = 0x12
type_code rsp_cancel_order = 0x13
type_code req_modify_order = 0x14
type_code rsp_modify_order = 0x15
type_code req_orderbook_status = 0x16
type_code rsp_orderbook_status = 0x17
type_code notify_trade = 0x18
type_code cmd_test = 0x20
type_code cmd_error = 0x30

-- `type` is the byte, which may be no enumerator's.
pub record MessageHeader : Type 0 where
  pub type : ℕ
  pub length : ℕ
  pub sequence : ℕ

pub record AddOrderRequest : Type 0 where
  pub header : MessageHeader
  pub order_type : ℕ
  pub side : ℕ
  pub price : ℕ
  pub quantity : ℕ
  pub client_order_id : ℕ

pub record AddOrderResponse : Type 0 where
  pub header : MessageHeader
  pub client_order_id : ℕ
  pub server_order_id : ℕ
  pub status : ℕ

pub record CancelOrderRequest : Type 0 where
  pub header : MessageHeader
  pub order_id : ℕ

pub record CancelOrderResponse : Type 0 where
  pub header : MessageHeader
  pub order_id : ℕ
  pub status : ℕ

pub record ModifyOrderRequest : Type 0 where
  pub header : MessageHeader
  pub order_id : ℕ
  pub side : ℕ
  pub price : ℕ
  pub quantity : ℕ

pub record TradeNotification : Type 0 where
  pub header : MessageHeader
  pub buy_order_id : ℕ
  pub sell_order_id : ℕ
  pub price : ℕ
  pub quantity : ℕ

pub record NetworkLevelInfo : Type 0 where
  pub price : ℕ
  pub quantity : ℕ

abbrev pub max_levels : ℕ
max_levels = 10

-- The two arrays have `max_levels` entries.
pub record OrderbookStatusResponse : Type 0 where
  pub header : MessageHeader
  pub bid_levels_count : ℕ
  pub ask_levels_count : ℕ
  pub bid_levels : List NetworkLevelInfo
  pub ask_levels : List NetworkLevelInfo

pub record EchoRequest : Type 0 where
  pub header : MessageHeader
  pub message : List ℕ

pub record EchoResponse : Type 0 where
  pub header : MessageHeader
  pub message : List ℕ

-- `sizeof` of the packed structs.

abbrev pub size_of_header : ℕ
size_of_header = 9

abbrev pub size_of_echo_request : ℕ
size_of_echo_request = 265

abbrev pub size_of_add_order_request : ℕ
size_of_add_order_request = 27

abbrev pub size_of_cancel_order_request : ℕ
size_of_cancel_order_request = 17

abbrev pub size_of_modify_order_request : ℕ
size_of_modify_order_request = 26

abbrev pub size_of_add_order_response : ℕ
size_of_add_order_response = 26

abbrev pub size_of_cancel_order_response : ℕ
size_of_cancel_order_response = 18

abbrev pub size_of_trade_notification : ℕ
size_of_trade_notification = 33

abbrev pub size_of_orderbook_status_response : ℕ
size_of_orderbook_status_response = 177
