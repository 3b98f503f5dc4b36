-- ===== src/Server/Lifecycle/Stop.antt =====
-- `stop` and the destructor of `class TcpServer`, Orderbook Server/server.cpp.
use simple_orderbook_v.Common.{
  ℕ, suc, ◌-◌, ◌≡◌, ◌∙◌, refl, false, Option-cases, inl, inr, List, [], ◌∷◌, arith,
}
use simple_orderbook_v.Server.{
  TcpServer, Socket, closesocket, wsa_cleanup, close_clients, close_server_socket, stop, destroy,
}
use simple_orderbook_v.Server.Sockets.{
  count, sockets, listening, held, count-without, count-append, count-close_clients, nowhere,
}
use simple_orderbook_v.Server.Lifecycle.{IsRunning, running-HoldsSockets}

-- What closing sockets leaves as it is.
record KeepsRest (s t : TcpServer) : Type 0 where
  running : t.running ≡ s.running
  startups : t.startups ≡ s.startups
  cleanups : t.cleanups ≡ s.cleanups

close_clients-KeepsRest :
    (clients : List (Socket × ℕ)) (s : TcpServer) → KeepsRest s (close_clients clients s)
unfolding close_clients closesocket
close_clients-KeepsRest [] s = record { running = refl; startups = refl; cleanups = refl }
close_clients-KeepsRest ((k, id) ∷ rest) s =
    let later = close_clients-KeepsRest rest (closesocket k s) in
    record { running = later.running; startups = later.startups; cleanups = later.cleanups }

-- `close_server_socket` closes the socket that is listened on, if any, and leaves the rest.
record ClosesListening (s t : TcpServer) : Type 0 where
  kept : KeepsRest s t
  clients : t.clients ≡ s.clients
  counted :
      (j : Socket)
      → count j t.open_sockets ≡ count j s.open_sockets - count j (listening s.server_socket)

close_server_socket-ClosesListening : (s : TcpServer) → ClosesListening s (close_server_socket s)
unfolding close_server_socket closesocket
close_server_socket-ClosesListening s = elim (Option-cases s.server_socket) [
  | inl e ↦
      rw (e, close_server_socket)
        (record {
          kept = record { running = refl; startups = refl; cleanups = refl };
          clients = refl;
          counted = λ j. ground arith;
        })
  | inr (k, e) ↦
      rw (e, close_server_socket)
        (record {
          kept = record { running = refl; startups = refl; cleanups = refl };
          clients = refl;
          counted = λ j. ground (arith, count-without j k s.open_sockets);
        })
]

-- After `stop`.
record Stopped (s t : TcpServer) : Type 0 where
  running : t.running ≡ false
  clients : t.clients ≡ []
  startups : t.startups ≡ s.startups
  cleanups : t.cleanups ≡ suc s.cleanups
  counted : (j : Socket) → count j t.open_sockets ≡ count j s.open_sockets - count j (held s)

stop-Stopped : (s : TcpServer) → Stopped s (stop s)
unfolding stop wsa_cleanup
stop-Stopped s =
    let halted = record s { running = false } in
    let closed = close_server_socket-ClosesListening halted in
    let joined = record (close_server_socket halted) { accept_thread = false } in
    let rest = close_clients-KeepsRest joined.clients joined in
    record {
      running = rest.running ∙ closed.kept.running;
      clients = refl;
      startups = rest.startups ∙ closed.kept.startups;
      cleanups = omega (arith, rest.cleanups, closed.kept.cleanups);
      counted = λ j. ground (
        arith,
        count-close_clients j joined.clients joined,
        closed.counted j,
        closed.clients,
        count-append j (listening s.server_socket) (sockets s.clients),
      );
    }

-- `stop` closes the socket that a running server listens on and those of its clients, so that none is
-- open, and gives Winsock back.
pub stop-running :
    (s : TcpServer)
    → IsRunning s
    → ((stop s).open_sockets ≡ [])
      × ((stop s).clients ≡ [])
      × ((stop s).running ≡ false)
      × ((stop s).startups ≡ (stop s).cleanups)
stop-running s r =
    let h = running-HoldsSockets s r in
    let stopped = stop-Stopped s in
    (
      nowhere (stop s).open_sockets (λ j. omega (arith, stopped.counted j, h.counted j)),
      stopped.clients,
      stopped.running,
      omega (arith, stopped.startups, stopped.cleanups, h.balanced),
    )

-- `main` stops the server and its destructor stops it once more: `WSACleanup` is then called more often
-- than `WSAStartup`.
destroy-stop :
    (s : TcpServer) → IsRunning s → (destroy (stop s)).cleanups ≡ suc (destroy (stop s)).startups
unfolding destroy
destroy-stop s r =
    let first = stop-Stopped s in
    let second = stop-Stopped (stop s) in
    omega (
      arith,
      first.startups,
      first.cleanups,
      second.startups,
      second.cleanups,
      (running-HoldsSockets s r).balanced,
    )
