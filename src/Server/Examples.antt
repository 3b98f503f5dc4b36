-- ===== src/Server/Examples.antt =====
-- A connection to the server of Orderbook Server/server.cpp, and instances of the theorems.
use simple_orderbook_v.Common.{
  subst, ℕ, ◌==◌, if◌then◌else◌, ◌∙◌, suc, ◌≡◌, ◌≢◌, refl, true, false, some, pos, List, [], ◌∷◌,
  ◌++◌, inl, map, All, arith,
}
use simple_orderbook_v.Common.Int.{signed32}
use simple_orderbook_v.Common.{zero, take, replicate}
use simple_orderbook_v.ByteOrder.Status.{IsLevelInfo}
use simple_orderbook_v.Messages.{
  NetworkLevelInfo, ModifyOrderRequest, type_code, req_modify_order, size_of_modify_order_request,
}
use simple_orderbook_v.Common.Int.{unsigned32}
use simple_orderbook_v.Order.{OrderbookLevelInfos}
use simple_orderbook_v.ByteOrder.{status_to_network_order}
use simple_orderbook_v.Wire.{write as write_struct}
use simple_orderbook_v.Wire.Structs.{orderbook_status_response_struct}
use simple_orderbook_v.Server.Handlers.{status_response, serve_modify_order}
use simple_orderbook_v.Client.Receiver.{orderbook_status, process_message as process_response}
use simple_orderbook_v.Client.Receiver.Levels.{network_level, IsFull}
use simple_orderbook_v.Client.Receiver.Status.{FitsInfos, process_message-status_response}
use simple_orderbook_v.Outcome.{returned, undefined, Returns, value_or, ◌>>=◌}
use simple_orderbook_v.Network.{swap32}
use simple_orderbook_v.ByteOrder.{header_to_host_order}
use simple_orderbook_v.Memory.{load, load32}
use simple_orderbook_v.Memory.Layout.{decode}
use simple_orderbook_v.Order.{new_order}
use simple_orderbook_v.Levels.{remove, update, push_back}
use simple_orderbook_v.Index.{lookup, contains, insert, write}
use simple_orderbook_v.Orderbook.{
  empty_orderbook, add_order, cancel_order, rest_order, match_orders, match_levels, kill_front,
}
use simple_orderbook_v.Framing.{
  peek_header, peek_length, process_message_buffer, bytes, would_block,
}
use simple_orderbook_v.Framing.Chunks.{bytes_arrive, waits, nothing_arrives}
use simple_orderbook_v.Server.{
  TcpServer, Answers, new_server, start, accept_connection, remove_client, stop,
}
use simple_orderbook_v.Server.Connection.{handle_client, handle_client-stream_of}
use simple_orderbook_v.Server.Handlers.{
  side_of, order_type_of, process_message, handle_list_users_request, serve_add_order,
  serve_cancel_order,
}
use simple_orderbook_v.Server.Handlers.Clients.Stream.{
  Request, add, cancel, IsRequest, stream_of, serve_all,
}
use simple_orderbook_v.Server.Handlers.Settling.{
  Settling, settled, stuck, left_out, Withdrawn, order_named, modify_named,
}
use simple_orderbook_v.Server.Handlers.Placed.{
  serve_add_order-Settling, serve_cancel_order-Withdrawn, serve_modify_order-Settling,
}
use simple_orderbook_v.Orderbook.Refinement.{Faithful}
use simple_orderbook_v.Order.{buy}
use simple_orderbook_v.Server.Handlers.Success.{success_added, success_modified}
use simple_orderbook_v.Server.Handlers.Clients.{IsModifyOrder}
use simple_orderbook_v.Orderbook.Spec.{place, replace}
use simple_orderbook_v.Server.Handlers.Replies.{handle_list_users_request-undefined}
use simple_orderbook_v.Server.Handlers.ZeroLength.{zero_length-ne-returned}
use simple_orderbook_v.Server.Lifecycle.{
  IsRunning, started, accepted, HoldsSockets, running-HoldsSockets,
}
use simple_orderbook_v.Server.Lifecycle.Stop.{stop-running}
use simple_orderbook_v.Server.Workers.{Pool, order}
use simple_orderbook_v.Server.Workers.Client.{Reached, handle_client-Reached}
use simple_orderbook_v.Client.{new_client, receiver_ends}
use simple_orderbook_v.Client.Receiver.{receiver_function}
use simple_orderbook_v.Client.Receiver.Responses.{line_of}
use simple_orderbook_v.Client.Receiver.Replies.{replies_of, receiver_function-replies_of}
use simple_orderbook_v.Server.Fixtures.{
  machine, heap, server, server-Faithful, bid, bid-IsAddOrder, withdrawal, withdrawal-IsCancelOrder,
}

serve_add_order-Settling_example :
    Settling 0
      (λ side. place (order_named bid side) [])
      (success_added bid)
      4
      server
      (serve_add_order machine 3 4 bid server)
serve_add_order-Settling_example =
    serve_add_order-Settling machine 2 4 server [] server-Faithful bid bid-IsAddOrder

-- The bid rests.

abbrev with_bid : TcpServer
with_bid = value_or server (serve_add_order machine 1 4 bid server)

bid_served : serve_add_order machine 1 4 bid server ≡ returned with_bid
unfolding serve_add_order add_order match_orders match_levels kill_front contains lookup rest_order
    insert update push_back empty_orderbook write new_server side_of order_type_of new_order
    signed32
bid_served = refl

with_bid-Faithful : Faithful with_bid.next_address with_bid.orderbook (order_named bid buy ∷ [])
with_bid-Faithful =
    elim (serve_add_order-Settling machine 0 4 server [] server-Faithful bid bid-IsAddOrder) [
      | settled t side shown n p r f replied ↦
          let served : t ≡ with_bid = ground (arith, r, bid_served) in
          let named : side ≡ buy = ground (arith, n) in
          let rests : shown ≡ order_named bid buy ∷ [] = ground (arith, rw named at p) in
          subst (λ x. Faithful x.next_address x.orderbook (order_named bid buy ∷ [])) served
            (subst (λ y. Faithful t.next_address t.orderbook y) rests f)
      | stuck side n p r ↦ absurd (ground (arith, r, bid_served))
      | left_out n r ↦ absurd (ground (arith, r, bid_served))
    ]

serve_cancel_order-Withdrawn_example :
    Returns
      (Withdrawn withdrawal (order_named bid buy ∷ []) 4 with_bid)
      (serve_cancel_order machine 3 4 withdrawal with_bid)
serve_cancel_order-Withdrawn_example =
    serve_cancel_order-Withdrawn machine 3 4 with_bid (order_named bid buy ∷ []) with_bid-Faithful
      withdrawal withdrawal-IsCancelOrder

-- The bid goes to 20 at 90.
abbrev change : ModifyOrderRequest
change = record {
  header = record {
    type = type_code req_modify_order;
    length = size_of_modify_order_request;
    sequence = 1;
  };
  order_id = 7;
  side = 0;
  price = 90;
  quantity = 20;
}

change-IsModifyOrder : IsModifyOrder change
change-IsModifyOrder = record {
  fits = record {
    header = record { length = omega arith; sequence = omega arith };
    order_id = omega arith;
    price = omega arith;
    quantity = omega arith;
  };
  type = refl;
  size = refl;
  side = omega arith;
}

serve_modify_order-Settling_example :
    Settling 0
      (λ side. replace (modify_named change side) (order_named bid buy ∷ []))
      (success_modified change)
      4
      with_bid
      (serve_modify_order machine 3 4 change with_bid)
serve_modify_order-Settling_example =
    serve_modify_order-Settling machine 2 4 with_bid (order_named bid buy ∷ []) with_bid-Faithful
      change change-IsModifyOrder

-- A client that sends the bid and withdraws it.

abbrev requests : List Request
requests = add bid ∷ cancel withdrawal ∷ []

requests-IsRequest : All IsRequest requests
requests-IsRequest = (bid-IsAddOrder, (withdrawal-IsCancelOrder, tt))

abbrev begun : List ℕ
begun = 16 ∷ 0 ∷ []

abbrev sent : List ℕ
sent = stream_of machine 3 4 requests

handle_client-stream_of_example :
    handle_client machine 3 4 3 (bytes sent ∷ would_block ∷ bytes begun ∷ []) server
    ≡ (serve_all machine 3 4 requests server >>= λ t. returned (remove_client 4 t))
handle_client-stream_of_example =
    handle_client-stream_of machine 3 4 requests 3 begun server requests-IsRequest
      (bytes_arrive sent (waits (bytes_arrive begun nothing_arrives))) refl (inl (omega arith))
      (omega arith)

abbrev served : TcpServer
served = value_or server (serve_all machine 3 4 requests server)

all_served : serve_all machine 3 4 requests server ≡ returned served
unfolding serve_add_order serve_cancel_order add_order cancel_order match_orders match_levels
    kill_front contains lookup rest_order insert update push_back empty_orderbook write new_server
    side_of order_type_of new_order remove signed32
all_served = refl

-- The worker of that client, with what it begins from.
abbrev pool : Pool
pool = record {
  tasks = λ j.
      if j == 4
      then record { requests = map order requests; unsent = [] }
      else record { requests = []; unsent = [] };
  server = server;
}

handle_client-Reached_example : Reached machine 4 pool [] (remove_client 4 served)
handle_client-Reached_example =
    handle_client-Reached machine 2 4 pool requests 3 begun (remove_client 4 served)
      requests-IsRequest (bytes_arrive sent (waits (bytes_arrive begun nothing_arrives))) refl
      (inl (omega arith)) (omega arith) refl (handle_client-stream_of_example ∙ rw all_served refl)

handle_list_users_request-undefined_example :
    handle_list_users_request machine 3 4 [] server ≡ undefined
handle_list_users_request-undefined_example =
    handle_list_users_request-undefined machine 3 4 [] server refl

-- An echo request with the length 0.
abbrev no_length : List ℕ
no_length = 2 ∷ 0 ∷ 0 ∷ 0 ∷ 0 ∷ 0 ∷ 0 ∷ 0 ∷ 0 ∷ []

no_length-zero : peek_length machine.host no_length ≡ 0
unfolding peek_length peek_header decode load load32 header_to_host_order swap32
no_length-zero = refl

zero_length-ne-returned_example :
    process_message_buffer machine.host (process_message machine 3 4) 100 no_length server
    ≢ returned ([], server)
zero_length-ne-returned_example =
    zero_length-ne-returned machine 3 4 100 no_length server ([], server) (omega arith)
      no_length-zero

-- A server that starts, and whose first client connects.

abbrev answers : Answers
answers = record {
  starts_up = true;
  socket = some 3;
  sets_options = true;
  binds = true;
  listens = true;
}

abbrev running : TcpServer
running = record server {
  server_socket = some 3;
  running = true;
  accept_thread = true;
  startups = 1;
  open_sockets = 3 ∷ [];
}

start-running : start answers server ≡ returned (true, running)
unfolding start new_server
start-running = refl

abbrev with_client : TcpServer
with_client = (accept_connection 4 running).1

with_client-IsRunning : IsRunning with_client
unfolding new_server
with_client-IsRunning =
    accepted 4 running (started (empty_orderbook heap) 0 answers running start-running) refl

running-HoldsSockets_example : HoldsSockets with_client
running-HoldsSockets_example = running-HoldsSockets with_client with_client-IsRunning

stop-running_example :
    ((stop with_client).open_sockets ≡ [])
    × ((stop with_client).clients ≡ [])
    × ((stop with_client).running ≡ false)
    × ((stop with_client).startups ≡ (stop with_client).cleanups)
stop-running_example = stop-running with_client with_client-IsRunning

abbrev replied : List ℕ
replied = replies_of machine requests

receiver_function-replies_of_example :
    receiver_function machine.host 3 (bytes replied ∷ bytes begun ∷ []) new_client
    ≡ returned (map line_of requests, receiver_ends new_client)
receiver_function-replies_of_example =
    receiver_function-replies_of machine requests 3 begun new_client requests-IsRequest
      (bytes_arrive replied (bytes_arrive begun nothing_arrives)) refl (inl (omega arith))
      (omega arith)

-- One bid, and no asks.
abbrev depth : OrderbookLevelInfos
depth = record { bids = record { price = pos 100; quantity = 10 } ∷ []; asks = [] }

depth-FitsInfos : FitsInfos depth
unfolding unsigned32
depth-FitsInfos = record {
  bids = omega arith;
  asks = omega arith;
  bid_levels = ((omega arith, omega arith), tt);
  ask_levels = tt;
}

All-replicate : (n : ℕ) (l : NetworkLevelInfo) → IsLevelInfo l → All IsLevelInfo (replicate n l)
All-replicate zero l h = tt
All-replicate (suc n) l h = (h, All-replicate n l h)

slots-IsFull : IsFull (replicate 10 (record { price = 0; quantity = 0 }))
slots-IsFull = (refl, All-replicate 10 _ (omega arith, omega arith))

process_message-status_response_example :
    Returns
      (λ p. p.1 ≡ orderbook_status (map network_level (take 10 depth.bids)) [] ∷ [])
      (process_response machine.host 177
        (write_struct orderbook_status_response_struct machine.host
            (status_to_network_order machine.host (status_response machine depth))
          ++ [])
        [])
process_message-status_response_example =
    process_message-status_response machine depth depth-FitsInfos
      (record { bid_levels = slots-IsFull; ask_levels = slots-IsFull }) 177 [] []
