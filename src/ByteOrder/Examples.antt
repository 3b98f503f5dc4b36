-- ===== src/ByteOrder/Examples.antt =====
-- Instances of the theorems on Orderbook Server/message_format.h, on hosts of both byte orders.
use simple_orderbook_v.Common.{◌≡◌, ◌++◌, refl, true, false, [], ◌∷◌, arith}
use simple_orderbook_v.Network.{Host, swap32}
use simple_orderbook_v.Messages.{
  AddOrderRequest, OrderbookStatusResponse, type_code, req_add_order, rsp_orderbook_status,
}
use simple_orderbook_v.ByteOrder.Protocol.{
  Message, an_add_order_request, FitsFields, on_wire, read_as, big_endian,
}
use simple_orderbook_v.ByteOrder.Hosts.{read_as-on_wire}
use simple_orderbook_v.ByteOrder.Status.{FitsStatus}

abbrev intel : Host
intel = record {
  little_endian = true;
  htonl = swap32;
  ntohl = swap32;
  htonl_lem = λ x h. refl;
  ntohl_lem = λ x h. refl;
}

abbrev network : Host
network = record {
  little_endian = false;
  htonl = λ x. x;
  ntohl = λ x. x;
  htonl_lem = λ x h. refl;
  ntohl_lem = λ x h. refl;
}

abbrev request : AddOrderRequest
request = record {
  header = record { type = type_code req_add_order; length = 27; sequence = 1 };
  order_type = 0;
  side = 0;
  price = 100;
  quantity = 10;
  client_order_id = 4294967297;
}

request-FitsFields : FitsFields (Message.add_order_request request)
request-FitsFields = (
  omega arith,
  (
    omega arith,
    (omega arith, (omega arith, (omega arith, (omega arith, (omega arith, (omega arith, tt)))))),
  ),
)

-- A little-endian host sends to a big-endian one.
read_as-on_wire_example :
    (on_wire intel (Message.add_order_request request)
      ≡ big_endian (Message.add_order_request request))
    × (read_as network an_add_order_request
          (on_wire intel (Message.add_order_request request) ++ [])
        ≡ Message.add_order_request request)
read_as-on_wire_example =
    read_as-on_wire intel network (Message.add_order_request request) [] request-FitsFields

abbrev status : OrderbookStatusResponse
status = record {
  header = record { type = type_code rsp_orderbook_status; length = 97; sequence = 2 };
  bid_levels_count = 1;
  ask_levels_count = 0;
  bid_levels = record { price = 100; quantity = 10 } ∷ [];
  ask_levels = [];
}

status-Fits : FitsStatus status
status-Fits = record {
  header = record { length = omega arith; sequence = omega arith };
  bids = omega arith;
  asks = omega arith;
  bid_levels = ((omega arith, omega arith), tt);
  ask_levels = tt;
}
