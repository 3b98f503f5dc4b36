-- ===== src/Server/Handlers/Replies.antt =====
-- The reply of `handleListUsersRequest` of Orderbook Server/server.cpp, whose length is in network order
-- when `send` gets it.
use simple_orderbook_v.Common.{ℕ, ◌≡◌, refl, true, List, ltb-true, arith}
use simple_orderbook_v.Outcome.{undefined}
use simple_orderbook_v.Network.{Host, swap32}
use simple_orderbook_v.ByteOrder.{header_to_network_order}
use simple_orderbook_v.Server.{TcpServer, Socket}
use simple_orderbook_v.Server.Handlers.{Machine, header_for, handle_list_users_request}

swapped : (host : Host) → host.little_endian ≡ true → host.htonl 269 ≡ 218169344
unfolding swap32
swapped host e = ground (arith, e, host.htonl_lem 269 (omega arith))

-- On every little-endian machine the length is read as 218169344, and `send` is to read that many bytes
-- of a buffer of 512: the handler's behaviour is undefined, whatever the state of the server is.
pub handle_list_users_request-undefined :
    (machine : Machine) (fuel : ℕ) (socket : Socket) (buffer : List ℕ) (s : TcpServer)
    → machine.host.little_endian ≡ true
    → handle_list_users_request machine fuel socket buffer s ≡ undefined
unfolding handle_list_users_request header_to_network_order header_for
handle_list_users_request-undefined machine fuel socket buffer s little =
    rw (ltb-true 512 (machine.host.htonl 269) (rw (swapped machine.host little) (omega arith))) refl
