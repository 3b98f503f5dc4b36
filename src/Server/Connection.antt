-- ===== src/Server/Connection.antt =====
-- `handleClient` of Orderbook Server/server.cpp, for a connection from its first byte to its end.
use simple_orderbook_v.Common.{ℕ, ◌<◌, ◌≡◌, List, [], ◌++◌, All, length, arith, inl}
use simple_orderbook_v.Outcome.{Outcome, returned, ◌>>=◌, bind_assoc}
use simple_orderbook_v.Framing.{Received, receive}
use simple_orderbook_v.Framing.Frames.{IsPartial}
use simple_orderbook_v.Framing.Chunks.{Arrives, receive-concat}
use simple_orderbook_v.Server.{TcpServer, Socket, remove_client}
use simple_orderbook_v.Server.Handlers.{Machine, process_message}
use simple_orderbook_v.Server.Handlers.Clients.Stream.{
  Request, IsRequest, stream_of, serve_all, framed,
}

module _ (machine : Machine) (fuel : ℕ) (socket : Socket) where
  open machine use {host}

  -- `received` are the answers of `recv`, and `rounds` is the fuel of the inner loop.
  unfoldable pub handle_client : ℕ → List Received → TcpServer → Outcome TcpServer
  unfolding receive remove_client process_message
  handle_client rounds received s =
      receive host (process_message machine fuel socket) rounds received [] s >>= λ (buffer, t).
      returned (remove_client socket t)

  -- A client's requests to add, cancel or modify orders are served in their order, each once, in whatever
  -- pieces their bytes arrive, and an unfinished message at the end is dropped with the client.
  pub handle_client-stream_of :
      {received : List Received} {stream : List ℕ} (rs : List Request) (rounds : ℕ) (rest : List ℕ)
      (s : TcpServer)
      → All IsRequest rs
      → Arrives host (process_message machine fuel socket) received stream
      → stream ≡ stream_of machine fuel socket rs ++ rest
      → IsPartial host rest
      → length rs < rounds
      → handle_client rounds received s
        ≡ (serve_all machine fuel socket rs s >>= λ t. returned (remove_client socket t))
  unfolding handle_client
  handle_client-stream_of {received} {stream} rs rounds rest s all arrives e partial h =
      let f = framed machine fuel socket rs all in
      rw
        (receive-concat host (process_message machine fuel socket) f.frames rounds [] rest s arrives
          (inl (omega arith)) partial (rw f.stream e) (omega (arith, h, f.count)))
        (rw f.actions (bind_assoc (serve_all machine fuel socket rs s) (λ t. returned (rest, t)) _))
