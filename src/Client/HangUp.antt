-- ===== src/Client/HangUp.antt =====
-- What is left of the client of Orderbook Client/client.cpp when the server hangs up.
use simple_orderbook_v.Common.{
  ℕ, ◌≡◌, refl, Bool, true, false, Option, none, some, List, [], ◌∷◌, ◌++◌, if◌then◌else◌,
}
use simple_orderbook_v.Network.{Host}
use simple_orderbook_v.Client.{
  Sent, TcpClient, Ran, ran, terminated, finished, wsa_cleanup, closesocket, start_receiver,
  connect_socket, connect, receiver_ends, disconnect, destroy,
}
use simple_orderbook_v.Client.Requests.{
  send, send_echo_request, send_list_users_request, send_orderbook_status_request,
  send_add_order_request, send_cancel_order_request, send_modify_order_request,
}
use simple_orderbook_v.Client.Commands.{
  Command, place, run_command, run_commands, quit_client, is_quit, ignore_result, quit, ◌then_run◌,
}
use simple_orderbook_v.Client.Lifecycle.{IsOnline, online}

-- The client is not connected, and its thread has ended and is not joined.
pub data IsDropped : TcpClient → Type 0 where
  dropped :
      (server_socket : Option ℕ) (running : Bool)
      (next_order_id startups cleanups opened closed : ℕ) (sent : List Sent)
      → IsDropped (record {
        server_socket = server_socket;
        connected = false;
        running = running;
        receiver_thread = finished;
        next_order_id = next_order_id;
        startups = startups;
        cleanups = cleanups;
        opened = opened;
        closed = closed;
        sent = sent;
      })

-- The client is terminated, or is still dropped.
data Dies : Ran TcpClient → Type 0 where
  dies : Dies terminated
  goes_on : {c : TcpClient} → IsDropped c → Dies (ran c)

Dies-if : {x y : Ran TcpClient} (b : Bool) → Dies x → Dies y → Dies (if b then x else y)
Dies-if true p q = p
Dies-if false p q = q

connect_on :
    (socket : Option ℕ) (starts_up resolves connects non_blocking : Bool) (c : TcpClient)
    → IsDropped c
    → Dies (
        ignore_result (
          connect
            (record {
              starts_up = starts_up;
              socket = socket;
              resolves = resolves;
              connects = connects;
              non_blocking = non_blocking;
            })
            c))
unfolding connect connect_socket start_receiver wsa_cleanup closesocket
connect_on k false r o n c (dropped _ _ _ _ _ _ _ _) = goes_on (dropped _ _ _ _ _ _ _ _)
connect_on none true r o n c (dropped _ _ _ _ _ _ _ _) = goes_on (dropped _ _ _ _ _ _ _ _)
connect_on (some s) true false o n c (dropped _ _ _ _ _ _ _ _) = goes_on (dropped _ _ _ _ _ _ _ _)
connect_on (some s) true true false n c (dropped _ _ _ _ _ _ _ _) =
    goes_on (dropped _ _ _ _ _ _ _ _)
connect_on (some s) true true true false c (dropped _ _ _ _ _ _ _ _) =
    goes_on (dropped _ _ _ _ _ _ _ _)
connect_on (some s) true true true true c (dropped _ _ _ _ _ _ _ _) = dies

module _ (host : Host) where
  send-Dies : (message : Sent) (c : TcpClient) → IsDropped c → Dies (ran (send message c))
  send-Dies m c (dropped _ _ _ _ _ _ _ _) = goes_on (dropped _ _ _ _ _ _ _ _)

  send_add_order_request-Dies :
      (order_type side price quantity : ℕ) (c : TcpClient)
      → IsDropped c
      → Dies (ran (send_add_order_request host order_type side price quantity c))
  unfolding send_add_order_request
  send_add_order_request-Dies t s p q c (dropped _ _ _ _ _ _ _ _) =
      goes_on (dropped _ _ _ _ _ _ _ _)

  place-Dies :
      (order_type side price quantity : ℕ) (c : TcpClient)
      → IsDropped c
      → Dies (place host order_type side price quantity c)
  unfolding place
  place-Dies t s r q c p = Dies-if _ (goes_on p) (send_add_order_request-Dies t s r q c p)

  disconnect-Dies : (c : TcpClient) → IsDropped c → Dies (ran (disconnect c))
  unfolding disconnect
  disconnect-Dies c (dropped _ _ _ _ _ _ _ _) = goes_on (dropped _ _ _ _ _ _ _ _)

  run_command-Dies :
      (command : Command) (c : TcpClient) → IsDropped c → Dies (run_command host command c)
  unfolding run_command send_echo_request send_list_users_request send_orderbook_status_request
      send_cancel_order_request send_modify_order_request
  run_command-Dies (Command.connect_to w host_empty port) c p =
      Dies-if _ (goes_on p)
        (connect_on w.socket w.starts_up w.resolves w.connects w.non_blocking c p)
  run_command-Dies Command.disconnect_from c p = disconnect-Dies c p
  run_command-Dies (Command.echo m) c p = Dies-if _ (goes_on p) (send-Dies _ c p)
  run_command-Dies Command.users c p = send-Dies _ c p
  run_command-Dies (Command.buy r q) c p = place-Dies 0 0 r q c p
  run_command-Dies (Command.sell r q) c p = place-Dies 0 1 r q c p
  run_command-Dies (Command.fkbuy r q) c p = place-Dies 1 0 r q c p
  run_command-Dies (Command.fksell r q) c p = place-Dies 1 1 r q c p
  run_command-Dies (Command.cancel id) c p = Dies-if _ (goes_on p) (send-Dies _ c p)
  run_command-Dies (Command.modify id e b r q) c p = Dies-if _ (goes_on p) (send-Dies _ c p)
  run_command-Dies Command.book c p = send-Dies _ c p
  run_command-Dies Command.quit c p = goes_on p
  run_command-Dies Command.help c p = goes_on p
  run_command-Dies Command.unknown c p = goes_on p

  quit_client-terminated : (c : TcpClient) → IsDropped c → quit_client host c ≡ terminated
  unfolding quit_client destroy disconnect
  quit_client-terminated c (dropped _ _ _ _ _ _ _ _) = refl

  then_run-terminated :
      {r : Ran TcpClient} {next : TcpClient → Ran TcpClient}
      → Dies r
      → ((c : TcpClient) → IsDropped c → next c ≡ terminated)
      → (r then_run next) ≡ terminated
  then_run-terminated dies k = refl
  then_run-terminated (goes_on p) k = k _ p

  terminated_if :
      {x y : Ran TcpClient} (b : Bool)
      → x ≡ terminated
      → y ≡ terminated
      → (if b then x else y) ≡ terminated
  terminated_if true p q = p
  terminated_if false p q = q

  dropped-terminated :
      (commands rest : List Command) (c : TcpClient)
      → IsDropped c
      → run_commands host (commands ++ quit ∷ rest) c ≡ terminated
  unfolding run_commands
  dropped-terminated [] rest c p = quit_client-terminated c p
  dropped-terminated (command ∷ commands) rest c p =
      terminated_if (is_quit command) (quit_client-terminated c p)
        (then_run-terminated (run_command-Dies command c p) (dropped-terminated commands rest))

  receiver_ends-IsDropped : (c : TcpClient) → IsOnline c → IsDropped (receiver_ends c)
  unfolding receiver_ends
  receiver_ends-IsDropped c (online _ _ _ _ _ _) = dropped _ _ _ _ _ _ _ _

  -- When the server hangs up on a client that is connected, `std::terminate` ends the client, at the
  -- next `connect` that succeeds or at `quit`, whatever commands come before: `disconnect` does not join
  -- the thread that has ended.
  pub run_commands-receiver_ends :
      (commands rest : List Command) (c : TcpClient)
      → IsOnline c
      → run_commands host (commands ++ quit ∷ rest) (receiver_ends c) ≡ terminated
  run_commands-receiver_ends commands rest c o =
      dropped-terminated commands rest (receiver_ends c) (receiver_ends-IsDropped c o)
