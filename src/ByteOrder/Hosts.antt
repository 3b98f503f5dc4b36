-- ===== src/ByteOrder/Hosts.antt =====
-- The messages for orders of Orderbook Server/message_format.h on the wire between two hosts.
use simple_orderbook_v.Common.{ℕ, ◌≡◌, refl, ap, List, ◌++◌}
use simple_orderbook_v.Network.{Host}
use simple_orderbook_v.ByteOrder.{
  add_order_request_to_network_order, add_order_request_to_host_order,
  add_order_response_to_network_order, add_order_response_to_host_order,
  cancel_order_request_to_network_order, cancel_order_request_to_host_order,
  cancel_order_response_to_network_order, cancel_order_response_to_host_order,
  modify_order_request_to_network_order, modify_order_request_to_host_order,
  trade_notification_to_network_order, trade_notification_to_host_order,
}
use simple_orderbook_v.ByteOrder.RoundTrip.{
  add_order_request_host-network, add_order_response_host-network,
  cancel_order_request_host-network, cancel_order_response_host-network,
  modify_order_request_host-network, trade_notification_host-network,
}
use simple_orderbook_v.Wire.Structs.{
  add_order_request_struct, add_order_response_struct, cancel_order_request_struct,
  cancel_order_response_struct, modify_order_request_struct, trade_notification_struct,
}
use simple_orderbook_v.Wire.Hosts.{Conversion, write-to_network_order, to_host_order-write}
use simple_orderbook_v.ByteOrder.Protocol.{
  Message, kind_of, on_wire, read_as, FitsFields, big_endian,
}

abbrev add_order_request_conversion : Conversion add_order_request_struct
unfolding add_order_request_to_network_order add_order_request_to_host_order
add_order_request_conversion = record {
  to_network_order = add_order_request_to_network_order;
  to_host_order = add_order_request_to_host_order;
  converts = λ host m. refl;
  whole = λ host m. refl;
  back = λ host m f. add_order_request_host-network host m (record {
    header = record { length = f.1.0; sequence = f.1.1.0 };
    price = f.1.1.1.1.1.0;
    quantity = f.1.1.1.1.1.1.0;
    client_order_id = f.1.1.1.1.1.1.1.0;
  });
}

abbrev add_order_response_conversion : Conversion add_order_response_struct
unfolding add_order_response_to_network_order add_order_response_to_host_order
add_order_response_conversion = record {
  to_network_order = add_order_response_to_network_order;
  to_host_order = add_order_response_to_host_order;
  converts = λ host m. refl;
  whole = λ host m. refl;
  back = λ host m f. add_order_response_host-network host m (record {
    header = record { length = f.1.0; sequence = f.1.1.0 };
    client_order_id = f.1.1.1.0;
    server_order_id = f.1.1.1.1.0;
  });
}

abbrev cancel_order_request_conversion : Conversion cancel_order_request_struct
unfolding cancel_order_request_to_network_order cancel_order_request_to_host_order
cancel_order_request_conversion = record {
  to_network_order = cancel_order_request_to_network_order;
  to_host_order = cancel_order_request_to_host_order;
  converts = λ host m. refl;
  whole = λ host m. refl;
  back = λ host m f.
      cancel_order_request_host-network host m
        (record { header = record { length = f.1.0; sequence = f.1.1.0 }; order_id = f.1.1.1.0 });
}

abbrev cancel_order_response_conversion : Conversion cancel_order_response_struct
unfolding cancel_order_response_to_network_order cancel_order_response_to_host_order
cancel_order_response_conversion = record {
  to_network_order = cancel_order_response_to_network_order;
  to_host_order = cancel_order_response_to_host_order;
  converts = λ host m. refl;
  whole = λ host m. refl;
  back = λ host m f.
      cancel_order_response_host-network host m
        (record { header = record { length = f.1.0; sequence = f.1.1.0 }; order_id = f.1.1.1.0 });
}

abbrev modify_order_request_conversion : Conversion modify_order_request_struct
unfolding modify_order_request_to_network_order modify_order_request_to_host_order
modify_order_request_conversion = record {
  to_network_order = modify_order_request_to_network_order;
  to_host_order = modify_order_request_to_host_order;
  converts = λ host m. refl;
  whole = λ host m. refl;
  back = λ host m f. modify_order_request_host-network host m (record {
    header = record { length = f.1.0; sequence = f.1.1.0 };
    order_id = f.1.1.1.0;
    price = f.1.1.1.1.1.0;
    quantity = f.1.1.1.1.1.1.0;
  });
}

abbrev trade_notification_conversion : Conversion trade_notification_struct
unfolding trade_notification_to_network_order trade_notification_to_host_order
trade_notification_conversion = record {
  to_network_order = trade_notification_to_network_order;
  to_host_order = trade_notification_to_host_order;
  converts = λ host m. refl;
  whole = λ host m. refl;
  back = λ host m f. trade_notification_host-network host m (record {
    header = record { length = f.1.0; sequence = f.1.1.0 };
    buy_order_id = f.1.1.1.0;
    sell_order_id = f.1.1.1.1.0;
    price = f.1.1.1.1.1.0;
    quantity = f.1.1.1.1.1.1.0;
  });
}

module _ (sender receiver : Host) where
  -- A request or response to add or cancel an order, a request to modify one or a notification of a
  -- trade, whose fields fit their types, is sent by any host as its fields in their order, each with its
  -- highest byte first, and any host, of either byte order, reads the same message from these bytes.
  pub read_as-on_wire :
      (m : Message) (rest : List ℕ)
      → FitsFields m
      → (on_wire sender m ≡ big_endian m)
        × (read_as receiver (kind_of m) (on_wire sender m ++ rest) ≡ m)
  unfolding add_order_request_to_network_order add_order_request_conversion
      add_order_response_to_network_order add_order_response_conversion
      cancel_order_request_to_network_order cancel_order_request_conversion
      cancel_order_response_to_network_order cancel_order_response_conversion
      modify_order_request_to_network_order modify_order_request_conversion
      trade_notification_to_network_order trade_notification_conversion
  read_as-on_wire (Message.add_order_request m) rest f = (
    write-to_network_order add_order_request_struct add_order_request_conversion m f sender,
    ap Message.add_order_request (
        to_host_order-write add_order_request_struct add_order_request_conversion m f sender
          receiver rest),
  )
  read_as-on_wire (Message.add_order_response m) rest f = (
    write-to_network_order add_order_response_struct add_order_response_conversion m f sender,
    ap Message.add_order_response (
        to_host_order-write add_order_response_struct add_order_response_conversion m f sender
          receiver rest),
  )
  read_as-on_wire (Message.cancel_order_request m) rest f = (
    write-to_network_order cancel_order_request_struct cancel_order_request_conversion m f sender,
    ap Message.cancel_order_request (
        to_host_order-write cancel_order_request_struct cancel_order_request_conversion m f sender
          receiver rest),
  )
  read_as-on_wire (Message.cancel_order_response m) rest f = (
    write-to_network_order cancel_order_response_struct cancel_order_response_conversion m f sender,
    ap Message.cancel_order_response (
        to_host_order-write cancel_order_response_struct cancel_order_response_conversion m f sender
          receiver rest),
  )
  read_as-on_wire (Message.modify_order_request m) rest f = (
    write-to_network_order modify_order_request_struct modify_order_request_conversion m f sender,
    ap Message.modify_order_request (
        to_host_order-write modify_order_request_struct modify_order_request_conversion m f sender
          receiver rest),
  )
  read_as-on_wire (Message.trade_notification m) rest f = (
    write-to_network_order trade_notification_struct trade_notification_conversion m f sender,
    ap Message.trade_notification (
        to_host_order-write trade_notification_struct trade_notification_conversion m f sender
          receiver rest),
  )
