-- ===== src/Server/Sockets.antt =====
-- The lists of sockets of `class TcpServer` of Orderbook Server/server.cpp, by how often each socket is in
-- them.
use simple_orderbook_v.Common.{
  ℕ, suc, ◌+◌, ◌-◌, ◌≡◌, refl, Option, none, some, List, [], ◌∷◌, ◌++◌, ◌==◌, if◌then◌else◌, arith,
}
use simple_orderbook_v.Server.{
  TcpServer, Socket, closesocket, without, set_client, erase_client, close_clients,
}

-- How often a socket is in a list.
abbrev pub count : Socket → List Socket → ℕ
count k [] = 0
count k (s ∷ rest) = let later = count k rest in if s == k then suc later else later

-- The sockets that the server has a use for.
abbrev pub sockets : List (Socket × ℕ) → List Socket
sockets [] = []
sockets ((k, id) ∷ rest) = k ∷ sockets rest

abbrev pub listening : Option Socket → List Socket
listening none = []
listening (some k) = k ∷ []

abbrev pub held : TcpServer → List Socket
held s = listening s.server_socket ++ sockets s.clients

abbrev pub once : Socket → Socket → ℕ
once j k = if k == j then 1 else 0

pub count-without : (j k : Socket) (l : List Socket) → count j (without k l) ≡ count j l - once j k
count-without j k [] = ground arith
count-without j k (s ∷ rest) = ground (arith, count-without j k rest)

pub count-append : (j : Socket) (xs ys : List Socket) → count j (xs ++ ys) ≡ count j xs + count j ys
count-append j [] ys = omega arith
count-append j (x ∷ xs) ys = ground (arith, count-append j xs ys)

pub sockets-erase_client :
    (k : Socket) (clients : List (Socket × ℕ))
    → sockets (erase_client k clients) ≡ without k (sockets clients)
sockets-erase_client k [] = refl
sockets-erase_client k ((j, id) ∷ rest) = ground (arith, sockets-erase_client k rest)

pub count-set_client :
    (j k : Socket) (id : ℕ) (clients : List (Socket × ℕ))
    → count k (sockets clients) ≡ 0
    → count j (sockets (set_client k id clients)) ≡ count j (sockets clients) + once j k
count-set_client j k id [] fresh = ground arith
count-set_client j k id ((i, old) ∷ rest) fresh =
    ground (arith, fresh, count-set_client j k id rest (ground (arith, fresh)))

pub count-close_clients :
    (j : Socket) (clients : List (Socket × ℕ)) (s : TcpServer)
    → count j (close_clients clients s).open_sockets
      ≡ count j s.open_sockets - count j (sockets clients)
unfolding close_clients closesocket
count-close_clients j [] s = ground arith
count-close_clients j ((k, id) ∷ rest) s =
    ground (arith, count-close_clients j rest (closesocket k s), count-without j k s.open_sockets)

pub nowhere : (l : List Socket) → ((j : Socket) → count j l ≡ 0) → l ≡ []
nowhere [] none_left = refl
nowhere (k ∷ rest) none_left = absurd (ground (arith, none_left k))
