-- ===== src/Client.antt =====
-- `class TcpClient` of Orderbook Client/client.cpp. Winsock is a parameter: a call of `connect` gets
-- the answers of its functions as an argument. `startups` and `cleanups` count the calls of
-- `WSAStartup` that succeed and those of `WSACleanup`, `opened` and `closed` the sockets that `socket`
-- has opened and the calls of `closesocket`, and `sent` holds the messages that were handed to `send`,
-- first to last. `send` that fails is only printed.
mod Examples
pub mod Commands
pub mod HangUp
pub mod Lifecycle
pub mod Receiver
pub mod Requests
use simple_orderbook_v.Common.{
  ℕ, suc, ◌+◌, ◌-◌, ◌%◌, ◌^◌, Bool, true, false, not, Option, none, some, List, [], ◌∷◌, ◌++◌, take,
  length, if◌then◌else◌,
}
use simple_orderbook_v.Network.{Host}
use simple_orderbook_v.Messages.{
  MessageType, type_code, req_quit, req_echo, req_listusers, req_add_order, req_cancel_order,
  req_modify_order, req_orderbook_status, MessageHeader, EchoRequest, AddOrderRequest,
  CancelOrderRequest, ModifyOrderRequest, size_of_header, size_of_echo_request,
  size_of_add_order_request, size_of_cancel_order_request, size_of_modify_order_request,
}
use simple_orderbook_v.ByteOrder.{
  header_to_network_order, add_order_request_to_network_order,
  cancel_order_request_to_network_order, modify_order_request_to_network_order,
}

-- What the calls in `connect` answer.
pub record Winsock : Type 0 where
  pub starts_up : Bool
  pub socket : Option ℕ
  pub resolves : Bool
  pub connects : Bool
  pub non_blocking : Bool

-- `receiverThread_`: without a thread, in `receiverFunction`, or past its end and not yet joined.
pub data Thread : Type 0 where
  no_thread receiving finished : Thread

abbrev pub joinable : Thread → Bool
joinable no_thread = false
joinable receiving = true
joinable finished = true

pub data Sent : Type 0 where
  header_only : MessageHeader → Sent
  echo : EchoRequest → Sent
  add_order : AddOrderRequest → Sent
  cancel_order : CancelOrderRequest → Sent
  modify_order : ModifyOrderRequest → Sent

pub record TcpClient : Type 0 where
  pub server_socket : Option ℕ
  pub connected : Bool
  pub running : Bool
  pub receiver_thread : Thread
  pub next_order_id : ℕ
  pub startups : ℕ
  pub cleanups : ℕ
  pub opened : ℕ
  pub closed : ℕ
  pub sent : List Sent

-- `std::terminate` is called when a joinable `std::thread` is assigned to or destroyed.
pub data Ran (A : Type 0) : Type 0 where
  ran : A → Ran A
  terminated : Ran A

unfoldable pub new_client : TcpClient
new_client = record {
  server_socket = none;
  connected = false;
  running = false;
  receiver_thread = no_thread;
  next_order_id = 1;
  startups = 0;
  cleanups = 0;
  opened = 0;
  closed = 0;
  sent = [];
}

unfoldable pub wsa_cleanup : TcpClient → TcpClient
wsa_cleanup c = record c { cleanups = suc c.cleanups }

unfoldable pub closesocket : TcpClient → TcpClient
closesocket c = record c { closed = suc c.closed }

-- `receiverThread_ = std::thread(&TcpClient::receiverFunction, this);`
unfoldable pub start_receiver : TcpClient → Ran (Bool × TcpClient)
start_receiver c =
    if joinable c.receiver_thread
    then terminated
    else ran (true, record c { receiver_thread = receiving })

-- From the second call on, with the new socket open.
unfoldable pub connect_socket : Winsock → TcpClient → Ran (Bool × TcpClient)
unfolding wsa_cleanup closesocket start_receiver
connect_socket winsock c =
    if not winsock.resolves
    then ran (false, wsa_cleanup (closesocket c))
    else if not winsock.connects
    then ran (false, wsa_cleanup (closesocket c))
    else if not winsock.non_blocking
    then ran (false, wsa_cleanup (closesocket c))
    else start_receiver (record c { connected = true; running = true })

unfoldable pub connect : Winsock → TcpClient → Ran (Bool × TcpClient)
unfolding connect_socket
connect winsock c =
    if c.connected
    then ran (false, c)
    else if not winsock.starts_up
    then ran (false, c)
    else elim winsock.socket [
      | none ↦
          ran (false, wsa_cleanup (record c { server_socket = none; startups = suc c.startups }))
      | some s ↦
          connect_socket winsock
            (record c { server_socket = some s; startups = suc c.startups; opened = suc c.opened })
    ]

-- The end of `receiverFunction`, when the server hangs up, on an error or when `running` is false.
unfoldable pub receiver_ends : TcpClient → TcpClient
receiver_ends c = record c { connected = false; receiver_thread = finished }

unfoldable pub close_server_socket : TcpClient → TcpClient
unfolding closesocket
close_server_socket c = elim c.server_socket [
  | none ↦ c
  | some s ↦ record (closesocket c) { server_socket = none }
]

-- `join` waits until `receiverFunction` has ended.
unfoldable pub disconnect : TcpClient → TcpClient
unfolding close_server_socket receiver_ends wsa_cleanup
disconnect c =
    if not c.connected
    then c
    else let stopping = record c { running = false } in
      let joined =
        if joinable stopping.receiver_thread
        then record (receiver_ends stopping) { receiver_thread = no_thread }
        else stopping in
      record (wsa_cleanup (close_server_socket joined)) { connected = false }

-- The destructor, and that of its member `receiverThread_`.
unfoldable pub destroy : TcpClient → Ran TcpClient
unfolding disconnect
destroy c =
    let done = disconnect c in if joinable done.receiver_thread then terminated else ran done
