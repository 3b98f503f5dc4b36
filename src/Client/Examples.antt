-- ===== src/Client/Examples.antt =====
-- Sessions of Orderbook Client/client.cpp, and instances of the theorems.
use simple_orderbook_v.Common.{◌≡◌, refl, true, false, some, pos, List, [], ◌∷◌, ◌++◌, arith}
use simple_orderbook_v.Network.{Host, swap32}
use simple_orderbook_v.Client.{TcpClient, Winsock, terminated, receiver_ends, receiving, new_client}
use simple_orderbook_v.Client.Requests.{send_add_order_request}
use simple_orderbook_v.Client.Requests.Read.{IsSent, request_of, send_add_order_request-IsSent}
use simple_orderbook_v.Client.Commands.{Command, connect_to, buy, quit, run_commands}
use simple_orderbook_v.Client.Lifecycle.{
  IsIdle, online, Ends, new_client-Phase, run_commands-IsIdle,
}
use simple_orderbook_v.Client.HangUp.{run_commands-receiver_ends}

abbrev intel : Host
intel = record {
  little_endian = true;
  htonl = swap32;
  ntohl = swap32;
  htonl_lem = λ x h. refl;
  ntohl_lem = λ x h. refl;
}

abbrev answers : Winsock
answers = record {
  starts_up = true;
  socket = some 5;
  resolves = true;
  connects = true;
  non_blocking = true;
}

-- `connect localhost 9000`, then `buy 100 10`.
abbrev commands : List Command
commands = connect_to answers false (pos 9000) ∷ buy 100 10 ∷ []

run_commands-IsIdle_example : Ends IsIdle (run_commands intel (commands ++ quit ∷ []) new_client)
run_commands-IsIdle_example = run_commands-IsIdle intel commands [] new_client new_client-Phase

abbrev connected : TcpClient
connected = record {
  server_socket = some 5;
  connected = true;
  running = true;
  receiver_thread = receiving;
  next_order_id = 1;
  startups = 1;
  cleanups = 0;
  opened = 1;
  closed = 0;
  sent = [];
}

run_commands-receiver_ends_example :
    run_commands intel (commands ++ quit ∷ []) (receiver_ends connected) ≡ terminated
run_commands-receiver_ends_example =
    run_commands-receiver_ends intel commands [] connected (online 5 true 1 0 0 [])

send_add_order_request-IsSent_example :
    IsSent intel
      (request_of 0 0 100 10 connected)
      connected
      (send_add_order_request intel 0 0 100 10 connected)
send_add_order_request-IsSent_example =
    send_add_order_request-IsSent intel 0 0 100 10 connected refl (omega arith) (omega arith)
      (omega arith)
