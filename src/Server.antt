-- ===== src/Server.antt =====
-- `class TcpServer` of Orderbook Server/server.cpp: its state, and the calls that start it, stop it and
-- add and remove clients. Winsock is a parameter: `start` gets the answers of its functions as an
-- argument. `startups` and `cleanups` count the calls of `WSAStartup` and `WSACleanup`, `open_sockets`
-- are the sockets that were opened and not closed, and `sent` holds what was handed to `send`, first
-- to last. The book's lock makes each call of it one step; `next_address` is where the next
-- `make_shared` puts its order.
pub mod Connection
pub mod Handlers
pub mod Lifecycle
pub mod Sockets
pub mod Workers
mod Examples
mod Fixtures
use simple_orderbook_v.Common.{
  ℕ, zero, suc, ◌+◌, ◌%◌, ◌^◌, Bool, true, false, not, Option, none, some, List, [], ◌∷◌, ◌++◌, map,
  ◌==◌, if◌then◌else◌,
}
use simple_orderbook_v.Outcome.{Outcome, returned, terminated}
use simple_orderbook_v.Levels.{OrderPointer}
use simple_orderbook_v.Orderbook.{Orderbook}

abbrev pub Socket : Type 0
Socket = ℕ

pub record TcpServer : Type 0 where
  pub server_socket : Option Socket
  pub running : Bool
  pub accept_thread : Bool
  pub next_client_id : ℕ
  pub clients : List (Socket × ℕ)
  pub orderbook : Orderbook
  pub next_address : OrderPointer
  pub sent : List (Socket × List ℕ)
  pub startups : ℕ
  pub cleanups : ℕ
  pub open_sockets : List Socket

unfoldable pub new_server : Orderbook → OrderPointer → TcpServer
new_server book address = record {
  server_socket = none;
  running = false;
  accept_thread = false;
  next_client_id = 1;
  clients = [];
  orderbook = book;
  next_address = address;
  sent = [];
  startups = 0;
  cleanups = 0;
  open_sockets = [];
}

-- What the calls in `start` answer; `gethostname` and `getaddrinfo` are for printing only.
pub record Answers : Type 0 where
  pub starts_up : Bool
  pub socket : Option Socket
  pub sets_options : Bool
  pub binds : Bool
  pub listens : Bool

abbrev pub without : Socket → List Socket → List Socket
without k [] = []
without k (s ∷ rest) = let later = without k rest in if s == k then rest else s ∷ later

unfoldable pub closesocket : Socket → TcpServer → TcpServer
closesocket k s = record s { open_sockets = without k s.open_sockets }

unfoldable pub wsa_cleanup : TcpServer → TcpServer
wsa_cleanup s = record s { cleanups = s.cleanups + 1 }

-- `acceptThread_ = std::thread(...)`, which terminates if the thread is joinable.
unfoldable pub start_accepting : TcpServer → Outcome (Bool × TcpServer)
start_accepting s =
    if s.accept_thread
    then terminated
    else returned (true, record s { running = true; accept_thread = true })

-- From the second call on, with the new socket open; it stays in `serverSocket_` on failure.
unfoldable pub start_socket : Answers → Socket → TcpServer → Outcome (Bool × TcpServer)
unfolding closesocket wsa_cleanup start_accepting
start_socket answers k s =
    if not answers.sets_options
    then returned (false, wsa_cleanup (closesocket k s))
    else if not answers.binds
    then returned (false, wsa_cleanup (closesocket k s))
    else if not answers.listens
    then returned (false, wsa_cleanup (closesocket k s))
    else start_accepting s

unfoldable pub start : Answers → TcpServer → Outcome (Bool × TcpServer)
unfolding start_socket
start answers s = if not answers.starts_up then returned (false, s) else elim answers.socket [
  | none ↦
      returned (false, wsa_cleanup (record s { server_socket = none; startups = s.startups + 1 }))
  | some k ↦ start_socket answers k (record s {
    server_socket = some k;
    startups = s.startups + 1;
    open_sockets = k ∷ s.open_sockets;
  })
]

abbrev pub set_client : Socket → ℕ → List (Socket × ℕ) → List (Socket × ℕ)
set_client k id [] = (k, id) ∷ []
set_client k id ((j, old) ∷ rest) =
    let later = set_client k id rest in if j == k then (k, id) ∷ rest else (j, old) ∷ later

abbrev pub erase_client : Socket → List (Socket × ℕ) → List (Socket × ℕ)
erase_client k [] = []
erase_client k ((j, id) ∷ rest) =
    let later = erase_client k rest in if j == k then rest else (j, id) ∷ later

-- `acceptConnections` with a new connection, up to the task that it enqueues: its ID and its task's
-- socket. `nextClientId_` is a `uint32_t`.
unfoldable pub accept_connection : Socket → TcpServer → ℕ × TcpServer
accept_connection k s = (
  s.next_client_id,
  record s {
    next_client_id = (s.next_client_id + 1) % 2 ^ 32;
    clients = set_client k s.next_client_id s.clients;
    open_sockets = k ∷ s.open_sockets;
  },
)

-- The end of `handleClient`.
unfoldable pub remove_client : Socket → TcpServer → TcpServer
unfolding closesocket
remove_client k s = closesocket k (record s { clients = erase_client k s.clients })

unfoldable pub close_clients : List (Socket × ℕ) → TcpServer → TcpServer
unfolding closesocket
close_clients [] s = s
close_clients ((k, id) ∷ rest) s = close_clients rest (closesocket k s)

unfoldable pub close_server_socket : TcpServer → TcpServer
unfolding closesocket
close_server_socket s = elim s.server_socket [
  | none ↦ s
  | some k ↦ record (closesocket k s) { server_socket = none }
]

-- `join` of the accepting thread, which ends once `running_` is false and the socket is closed.
unfoldable pub stop : TcpServer → TcpServer
unfolding close_server_socket close_clients wsa_cleanup
stop s =
    let stopped = close_server_socket (record s { running = false }) in
    let joined = record stopped { accept_thread = false } in
    wsa_cleanup (record (close_clients joined.clients joined) { clients = [] })

-- `main` from `start` on: a server that has started runs until it is stopped, and its destructor stops
-- it again.
unfoldable pub destroy : TcpServer → TcpServer
unfolding stop
destroy s = stop s
