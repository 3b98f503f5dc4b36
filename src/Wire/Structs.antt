-- ===== src/Wire/Structs.antt =====
-- The fields of each struct of Orderbook Server/message_format.h, in their order. Lists of another
-- length, which no read gives, are zeros.
use simple_orderbook_v.Common.{ℕ, List, [], ◌∷◌, ◌++◌, take, drop, replicate, ◌*◌}
use simple_orderbook_v.Memory.{Width, u8, u32, u64}
use simple_orderbook_v.Messages.{
  MessageHeader, AddOrderRequest, AddOrderResponse, CancelOrderRequest, CancelOrderResponse,
  ModifyOrderRequest, TradeNotification, NetworkLevelInfo, OrderbookStatusResponse, EchoRequest,
  EchoResponse, max_levels,
}
use simple_orderbook_v.Wire.{Struct}

abbrev header_layout : List Width
header_layout = u8 ∷ u32 ∷ u32 ∷ []

abbrev header_of : ℕ → ℕ → ℕ → MessageHeader
header_of t l s = record { type = t; length = l; sequence = s }

abbrev header_of_fields : List ℕ → MessageHeader
header_of_fields (t ∷ l ∷ s ∷ []) = header_of t l s
header_of_fields _ = header_of 0 0 0

abbrev pub header_struct : Struct MessageHeader
header_struct = record {
  layout = header_layout;
  fields = λ m. m.type ∷ m.length ∷ m.sequence ∷ [];
  of_fields = header_of_fields;
}

abbrev add_order_request_of_fields : List ℕ → AddOrderRequest
add_order_request_of_fields (t ∷ l ∷ s ∷ a ∷ b ∷ c ∷ d ∷ e ∷ []) = record {
  header = header_of t l s;
  order_type = a;
  side = b;
  price = c;
  quantity = d;
  client_order_id = e;
}
add_order_request_of_fields _ = record {
  header = header_of 0 0 0;
  order_type = 0;
  side = 0;
  price = 0;
  quantity = 0;
  client_order_id = 0;
}

abbrev pub add_order_request_struct : Struct AddOrderRequest
add_order_request_struct = record {
  layout = header_layout ++ (u8 ∷ u8 ∷ u32 ∷ u32 ∷ u64 ∷ []);
  fields = λ m.
      m.header.type ∷ m.header.length ∷ m.header.sequence ∷ m.order_type ∷ m.side ∷ m.price
      ∷ m.quantity ∷ m.client_order_id ∷ [];
  of_fields = add_order_request_of_fields;
}

abbrev add_order_response_of_fields : List ℕ → AddOrderResponse
add_order_response_of_fields (t ∷ l ∷ s ∷ a ∷ b ∷ c ∷ []) = record {
  header = header_of t l s;
  client_order_id = a;
  server_order_id = b;
  status = c;
}
add_order_response_of_fields _ = record {
  header = header_of 0 0 0;
  client_order_id = 0;
  server_order_id = 0;
  status = 0;
}

abbrev pub add_order_response_struct : Struct AddOrderResponse
add_order_response_struct = record {
  layout = header_layout ++ (u64 ∷ u64 ∷ u8 ∷ []);
  fields = λ m.
      m.header.type ∷ m.header.length ∷ m.header.sequence ∷ m.client_order_id ∷ m.server_order_id
      ∷ m.status ∷ [];
  of_fields = add_order_response_of_fields;
}

abbrev cancel_order_request_of_fields : List ℕ → CancelOrderRequest
cancel_order_request_of_fields (t ∷ l ∷ s ∷ a ∷ []) = record {
  header = header_of t l s;
  order_id = a;
}
cancel_order_request_of_fields _ = record { header = header_of 0 0 0; order_id = 0 }

abbrev pub cancel_order_request_struct : Struct CancelOrderRequest
cancel_order_request_struct = record {
  layout = header_layout ++ (u64 ∷ []);
  fields = λ m. m.header.type ∷ m.header.length ∷ m.header.sequence ∷ m.order_id ∷ [];
  of_fields = cancel_order_request_of_fields;
}

abbrev cancel_order_response_of_fields : List ℕ → CancelOrderResponse
cancel_order_response_of_fields (t ∷ l ∷ s ∷ a ∷ b ∷ []) = record {
  header = header_of t l s;
  order_id = a;
  status = b;
}
cancel_order_response_of_fields _ = record { header = header_of 0 0 0; order_id = 0; status = 0 }

abbrev pub cancel_order_response_struct : Struct CancelOrderResponse
cancel_order_response_struct = record {
  layout = header_layout ++ (u64 ∷ u8 ∷ []);
  fields = λ m. m.header.type ∷ m.header.length ∷ m.header.sequence ∷ m.order_id ∷ m.status ∷ [];
  of_fields = cancel_order_response_of_fields;
}

abbrev modify_order_request_of_fields : List ℕ → ModifyOrderRequest
modify_order_request_of_fields (t ∷ l ∷ s ∷ a ∷ b ∷ c ∷ d ∷ []) = record {
  header = header_of t l s;
  order_id = a;
  side = b;
  price = c;
  quantity = d;
}
modify_order_request_of_fields _ = record {
  header = header_of 0 0 0;
  order_id = 0;
  side = 0;
  price = 0;
  quantity = 0;
}

abbrev pub modify_order_request_struct : Struct ModifyOrderRequest
modify_order_request_struct = record {
  layout = header_layout ++ (u64 ∷ u8 ∷ u32 ∷ u32 ∷ []);
  fields = λ m.
      m.header.type ∷ m.header.length ∷ m.header.sequence ∷ m.order_id ∷ m.side ∷ m.price
      ∷ m.quantity ∷ [];
  of_fields = modify_order_request_of_fields;
}

abbrev trade_notification_of_fields : List ℕ → TradeNotification
trade_notification_of_fields (t ∷ l ∷ s ∷ a ∷ b ∷ c ∷ d ∷ []) = record {
  header = header_of t l s;
  buy_order_id = a;
  sell_order_id = b;
  price = c;
  quantity = d;
}
trade_notification_of_fields _ = record {
  header = header_of 0 0 0;
  buy_order_id = 0;
  sell_order_id = 0;
  price = 0;
  quantity = 0;
}

abbrev pub trade_notification_struct : Struct TradeNotification
trade_notification_struct = record {
  layout = header_layout ++ (u64 ∷ u64 ∷ u32 ∷ u32 ∷ []);
  fields = λ m.
      m.header.type ∷ m.header.length ∷ m.header.sequence ∷ m.buy_order_id ∷ m.sell_order_id
      ∷ m.price ∷ m.quantity ∷ [];
  of_fields = trade_notification_of_fields;
}

-- The array `message` of 256 bytes.
abbrev bytes_256 : List Width
bytes_256 = replicate 256 u8

abbrev echo_request_of_fields : List ℕ → EchoRequest
echo_request_of_fields (t ∷ l ∷ s ∷ message) = record {
  header = header_of t l s;
  message = message;
}
echo_request_of_fields _ = record { header = header_of 0 0 0; message = [] }

abbrev pub echo_request_struct : Struct EchoRequest
echo_request_struct = record {
  layout = header_layout ++ bytes_256;
  fields = λ m. m.header.type ∷ m.header.length ∷ m.header.sequence ∷ m.message;
  of_fields = echo_request_of_fields;
}

abbrev echo_response_of_fields : List ℕ → EchoResponse
echo_response_of_fields (t ∷ l ∷ s ∷ message) = record {
  header = header_of t l s;
  message = message;
}
echo_response_of_fields _ = record { header = header_of 0 0 0; message = [] }

abbrev pub echo_response_struct : Struct EchoResponse
echo_response_struct = record {
  layout = header_layout ++ bytes_256;
  fields = λ m. m.header.type ∷ m.header.length ∷ m.header.sequence ∷ m.message;
  of_fields = echo_response_of_fields;
}

-- An array of levels, price and quantity of each.

abbrev pub level_fields : List NetworkLevelInfo → List ℕ
level_fields [] = []
level_fields (l ∷ levels) = l.price ∷ l.quantity ∷ level_fields levels

abbrev pub levels_of_fields : List ℕ → List NetworkLevelInfo
levels_of_fields (p ∷ q ∷ rest) = record { price = p; quantity = q } ∷ levels_of_fields rest
levels_of_fields _ = []

abbrev status_of_fields : List ℕ → OrderbookStatusResponse
status_of_fields (t ∷ l ∷ s ∷ b ∷ a ∷ rest) = record {
  header = header_of t l s;
  bid_levels_count = b;
  ask_levels_count = a;
  bid_levels = levels_of_fields (take (2 * max_levels) rest);
  ask_levels = levels_of_fields (drop (2 * max_levels) rest);
}
status_of_fields _ = record {
  header = header_of 0 0 0;
  bid_levels_count = 0;
  ask_levels_count = 0;
  bid_levels = [];
  ask_levels = [];
}

abbrev pub orderbook_status_response_struct : Struct OrderbookStatusResponse
orderbook_status_response_struct = record {
  layout = header_layout ++ (u32 ∷ u32 ∷ replicate (4 * max_levels) u32);
  fields = λ m.
      m.header.type
      ∷ m.header.length
      ∷ m.header.sequence
      ∷ m.bid_levels_count
      ∷ m.ask_levels_count
      ∷ (level_fields m.bid_levels ++ level_fields m.ask_levels);
  of_fields = status_of_fields;
}
