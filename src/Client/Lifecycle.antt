-- ===== src/Client/Lifecycle.antt =====
-- The connection of Orderbook Client/client.cpp through the commands of `main`.
use simple_orderbook_v.Common.{
  ℕ, suc, ◌⊎◌, inl, inr, Bool, true, false, Option, none, some, List, [], ◌∷◌, ◌++◌, if◌then◌else◌,
}
use simple_orderbook_v.Network.{Host}
use simple_orderbook_v.Client.{
  Sent, TcpClient, Winsock, Ran, ran, no_thread, receiving, new_client, wsa_cleanup, closesocket,
  start_receiver, connect_socket, connect, receiver_ends, close_server_socket, disconnect, destroy,
}
use simple_orderbook_v.Client.Requests.{
  send, send_echo_request, send_quit_request, send_list_users_request,
  send_orderbook_status_request, send_add_order_request, send_cancel_order_request,
  send_modify_order_request,
}
use simple_orderbook_v.Client.Commands.{
  Command, place, run_command, run_commands, quit_client, is_quit, ignore_result, quit, ◌then_run◌,
}

-- `WSACleanup` has been called once for each `WSAStartup`, `closesocket` once for each socket, and no
-- thread is left.
pub data IsIdle : TcpClient → Type 0 where
  idle :
      (server_socket : Option ℕ) (running : Bool) (next_order_id calls sockets : ℕ)
      (sent : List Sent)
      → IsIdle (record {
        server_socket = server_socket;
        connected = false;
        running = running;
        receiver_thread = no_thread;
        next_order_id = next_order_id;
        startups = calls;
        cleanups = calls;
        opened = sockets;
        closed = sockets;
        sent = sent;
      })

-- One `WSAStartup` is not cleaned up yet, one socket is not closed, and the thread receives.
pub data IsOnline : TcpClient → Type 0 where
  online :
      (s : ℕ) (running : Bool) (next_order_id calls sockets : ℕ) (sent : List Sent)
      → IsOnline (record {
        server_socket = some s;
        connected = true;
        running = running;
        receiver_thread = receiving;
        next_order_id = next_order_id;
        startups = suc calls;
        cleanups = calls;
        opened = suc sockets;
        closed = sockets;
        sent = sent;
      })

abbrev pub Phase : TcpClient → Type 0
Phase c = IsIdle c ⊎ IsOnline c

pub data Ends {A : Type 0} (P : A → Type 0) : Ran A → Type 0 where
  ends : {a : A} → P a → Ends P (ran a)

Ends-if :
    {A : Type 0} {P : A → Type 0} {x y : Ran A} (b : Bool)
    → Ends P x
    → Ends P y
    → Ends P (if b then x else y)
Ends-if true p q = p
Ends-if false p q = q

-- The flag that `connect` returns says whether the client is connected.
pub data Connected : Bool × TcpClient → Type 0 where
  failed : {c : TcpClient} → IsIdle c → Connected (false, c)
  succeeded : {c : TcpClient} → IsOnline c → Connected (true, c)

connect_on :
    (socket : Option ℕ) (starts_up resolves connects non_blocking : Bool) (c : TcpClient)
    → IsIdle c
    → Ends Connected (
        connect
          (record {
            starts_up = starts_up;
            socket = socket;
            resolves = resolves;
            connects = connects;
            non_blocking = non_blocking;
          })
          c)
unfolding connect connect_socket start_receiver wsa_cleanup closesocket
connect_on k false r o n c (idle _ _ _ _ _ _) = ends (failed (idle _ _ _ _ _ _))
connect_on none true r o n c (idle _ _ _ _ _ _) = ends (failed (idle _ _ _ _ _ _))
connect_on (some s) true false o n c (idle _ _ _ _ _ _) = ends (failed (idle _ _ _ _ _ _))
connect_on (some s) true true false n c (idle _ _ _ _ _ _) = ends (failed (idle _ _ _ _ _ _))
connect_on (some s) true true true false c (idle _ _ _ _ _ _) = ends (failed (idle _ _ _ _ _ _))
connect_on (some s) true true true true c (idle _ _ _ _ _ _) = ends (succeeded (online _ _ _ _ _ _))

pub connect-Connected :
    (winsock : Winsock) (c : TcpClient) → IsIdle c → Ends Connected (connect winsock c)
connect-Connected w c i = connect_on w.socket w.starts_up w.resolves w.connects w.non_blocking c i

ignore_result-Phase : {r : Ran (Bool × TcpClient)} → Ends Connected r → Ends Phase (ignore_result r)
ignore_result-Phase (ends (failed i)) = ends (inl i)
ignore_result-Phase (ends (succeeded o)) = ends (inr o)

connect-Phase :
    (winsock : Winsock) (c : TcpClient) → Phase c → Ends Phase (ignore_result (connect winsock c))
unfolding connect
connect-Phase w c (inl i) = ignore_result-Phase (connect-Connected w c i)
connect-Phase w c (inr (online _ _ _ _ _ _)) = ends (inr (online _ _ _ _ _ _))

pub disconnect-IsIdle : (c : TcpClient) → Phase c → IsIdle (disconnect c)
unfolding disconnect close_server_socket receiver_ends wsa_cleanup closesocket
disconnect-IsIdle c (inl (idle _ _ _ _ _ _)) = idle _ _ _ _ _ _
disconnect-IsIdle c (inr (online _ _ _ _ _ _)) = idle _ _ _ _ _ _

destroy-IsIdle : (c : TcpClient) → IsIdle c → Ends IsIdle (destroy c)
unfolding destroy
destroy-IsIdle c (idle _ _ _ _ _ _) = ends (idle _ _ _ _ _ _)

module _ (host : Host) where
  send-Phase : (message : Sent) (c : TcpClient) → Phase c → Phase (send message c)
  send-Phase m c (inl (idle _ _ _ _ _ _)) = inl (idle _ _ _ _ _ _)
  send-Phase m c (inr (online _ _ _ _ _ _)) = inr (online _ _ _ _ _ _)

  send_add_order_request-Phase :
      (order_type side price quantity : ℕ) (c : TcpClient)
      → Phase c
      → Phase (send_add_order_request host order_type side price quantity c)
  unfolding send_add_order_request
  send_add_order_request-Phase t s p q c (inl (idle _ _ _ _ _ _)) = inl (idle _ _ _ _ _ _)
  send_add_order_request-Phase t s p q c (inr (online _ _ _ _ _ _)) = inr (online _ _ _ _ _ _)

  place-Phase :
      (order_type side price quantity : ℕ) (c : TcpClient)
      → Phase c
      → Ends Phase (place host order_type side price quantity c)
  unfolding place
  place-Phase t s r q c p = Ends-if _ (ends p) (ends (send_add_order_request-Phase t s r q c p))

  run_command-Phase :
      (command : Command) (c : TcpClient) → Phase c → Ends Phase (run_command host command c)
  unfolding run_command send_echo_request send_quit_request send_list_users_request
      send_orderbook_status_request send_cancel_order_request send_modify_order_request
  run_command-Phase (Command.connect_to w host_empty port) c p =
      Ends-if _ (ends p) (connect-Phase w c p)
  run_command-Phase Command.disconnect_from c p = ends (inl (disconnect-IsIdle c p))
  run_command-Phase (Command.echo m) c p = Ends-if _ (ends p) (ends (send-Phase _ c p))
  run_command-Phase Command.users c p = ends (send-Phase _ c p)
  run_command-Phase (Command.buy r q) c p = place-Phase 0 0 r q c p
  run_command-Phase (Command.sell r q) c p = place-Phase 0 1 r q c p
  run_command-Phase (Command.fkbuy r q) c p = place-Phase 1 0 r q c p
  run_command-Phase (Command.fksell r q) c p = place-Phase 1 1 r q c p
  run_command-Phase (Command.cancel id) c p = Ends-if _ (ends p) (ends (send-Phase _ c p))
  run_command-Phase (Command.modify id e b r q) c p = Ends-if _ (ends p) (ends (send-Phase _ c p))
  run_command-Phase Command.book c p = ends (send-Phase _ c p)
  run_command-Phase Command.quit c p = ends p
  run_command-Phase Command.help c p = ends p
  run_command-Phase Command.unknown c p = ends p

  quit_client-IsIdle : (c : TcpClient) → Phase c → Ends IsIdle (quit_client host c)
  unfolding quit_client send_quit_request
  quit_client-IsIdle c (inl (idle a b d m n e)) = destroy-IsIdle _ (idle a b d m n e)
  quit_client-IsIdle c (inr (online a b d m n e)) =
      destroy-IsIdle _ (disconnect-IsIdle _ (send-Phase _ _ (inr (online a b d m n e))))

  then_run-Ends :
      {Q : TcpClient → Type 0} {r : Ran TcpClient} {next : TcpClient → Ran TcpClient}
      → Ends Phase r
      → ((c : TcpClient) → Phase c → Ends Q (next c))
      → Ends Q (r then_run next)
  then_run-Ends (ends p) k = k _ p

  -- From an idle or a connected client, a session that ends with `quit`, while the server does not
  -- hang up, runs to its end, and leaves no thread running, with `closesocket` called once for each
  -- socket and `WSACleanup` once for each `WSAStartup`, whatever its commands are and
  -- whichever calls of Winsock fail.
  pub run_commands-IsIdle :
      (commands rest : List Command) (c : TcpClient)
      → Phase c
      → Ends IsIdle (run_commands host (commands ++ quit ∷ rest) c)
  unfolding run_commands
  run_commands-IsIdle [] rest c p = quit_client-IsIdle c p
  run_commands-IsIdle (command ∷ commands) rest c p =
      Ends-if (is_quit command) (quit_client-IsIdle c p)
        (then_run-Ends (run_command-Phase command c p) (run_commands-IsIdle commands rest))

pub new_client-Phase : Phase new_client
unfolding new_client
new_client-Phase = inl (idle _ _ _ _ _ _)
