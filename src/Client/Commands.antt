-- ===== src/Client/Commands.antt =====
-- The loop of `main` in Orderbook Client/client.cpp. A command is a line whose words `istringstream`
-- has read, with all of the values that the line is read for; `connect_to` has the answers of Winsock,
-- whether the host is empty, and the port.
use simple_orderbook_v.Common.{
  ℕ, Bool, true, false, List, [], ◌∷◌, ◌||◌, ◌==◌, not, if◌then◌else◌, ℤ, pos, ltb_ℤ,
}
use simple_orderbook_v.Network.{Host}
use simple_orderbook_v.Client.{
  TcpClient, Winsock, Ran, ran, terminated, connect, disconnect, destroy,
}
use simple_orderbook_v.Client.Requests.{
  send_echo_request, send_quit_request, send_list_users_request, send_orderbook_status_request,
  send_add_order_request, send_cancel_order_request, send_modify_order_request,
}

pub data Command : Type 0 where
  connect_to : Winsock → Bool → ℤ → Command
  disconnect_from : Command
  echo : List ℕ → Command
  users : Command
  buy sell fkbuy fksell : ℕ → ℕ → Command
  cancel : ℕ → Command
  -- The side's word is empty, is `buy` or `b`.
  modify : ℕ → Bool → Bool → ℕ → ℕ → Command
  book : Command
  quit : Command
  help : Command
  unknown : Command

abbrev is_nil : List ℕ → Bool
is_nil [] = true
is_nil (x ∷ xs) = false

abbrev pub ignore_result : Ran (Bool × TcpClient) → Ran TcpClient
ignore_result (ran (b, c)) = ran c
ignore_result terminated = terminated

abbrev pub is_quit : Command → Bool
is_quit quit = true
is_quit (connect_to winsock host_empty port) = false
is_quit disconnect_from = false
is_quit (echo message) = false
is_quit users = false
is_quit (buy price quantity) = false
is_quit (sell price quantity) = false
is_quit (fkbuy price quantity) = false
is_quit (fksell price quantity) = false
is_quit (cancel order_id) = false
is_quit (modify order_id side_empty is_buy price quantity) = false
is_quit book = false
is_quit help = false
is_quit unknown = false

infixl 5 ◌then_run◌
abbrev pub ◌then_run◌ : Ran TcpClient → (TcpClient → Ran TcpClient) → Ran TcpClient
ran c then_run next = next c
terminated then_run next = terminated

-- `OrderType::GoodTillCancel` is 0 and `OrderType::FillAndKill` 1; `Side::Buy` is 0, `Side::Sell` 1.
module _ (host : Host) where
  unfoldable pub place : ℕ → ℕ → ℕ → ℕ → TcpClient → Ran TcpClient
  unfolding send_add_order_request
  place order_type side price quantity c =
      if price == 0 || quantity == 0
      then ran c
      else ran (send_add_order_request host order_type side price quantity c)

  -- A command other than `quit`.
  unfoldable pub run_command : Command → TcpClient → Ran TcpClient
  unfolding connect disconnect place
  run_command (connect_to winsock host_empty port) c =
      if host_empty || not (ltb_ℤ (pos 0) port) then ran c else ignore_result (connect winsock c)
  run_command disconnect_from c = ran (disconnect c)
  run_command (echo message) c =
      if is_nil message then ran c else ran (send_echo_request host message c)
  run_command users c = ran (send_list_users_request host c)
  run_command (buy price quantity) c = place 0 0 price quantity c
  run_command (sell price quantity) c = place 0 1 price quantity c
  run_command (fkbuy price quantity) c = place 1 0 price quantity c
  run_command (fksell price quantity) c = place 1 1 price quantity c
  run_command (cancel order_id) c =
      if order_id == 0 then ran c else ran (send_cancel_order_request host order_id c)
  run_command (modify order_id side_empty is_buy price quantity) c =
      if order_id == 0 || side_empty || price == 0 || quantity == 0
      then ran c
      else ran (send_modify_order_request host order_id (if is_buy then 0 else 1) price quantity c)
  run_command book c = ran (send_orderbook_status_request host c)
  run_command quit c = ran c
  run_command help c = ran c
  run_command unknown c = ran c

  -- `break` and the end of `main`, which destroys the client.
  unfoldable pub quit_client : TcpClient → Ran TcpClient
  quit_client c = if c.connected then destroy (disconnect (send_quit_request host c)) else destroy c

  -- The commands up to the first `quit`; a list that has none leaves the loop waiting for a line.
  unfoldable pub run_commands : List Command → TcpClient → Ran TcpClient
  run_commands [] c = ran c
  run_commands (command ∷ rest) c =
      if is_quit command
      then quit_client c
      else ((run_command command c) then_run (run_commands rest))
