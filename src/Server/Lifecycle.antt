-- ===== src/Server/Lifecycle.antt =====
-- The sockets of `class TcpServer` of Orderbook Server/server.cpp from its start to its end.
pub mod Stop
use simple_orderbook_v.Common.{
  ℕ, suc, ◌-◌, ◌≤◌, ◌≡◌, ◌∙◌, refl, subst, Bool, true, false, Bool-cases, Option-cases, inl, inr,
  some, List, [], ◌∷◌, arith,
}
use simple_orderbook_v.Outcome.{Outcome, returned}
use simple_orderbook_v.Levels.{OrderPointer}
use simple_orderbook_v.Orderbook.{Orderbook}
use simple_orderbook_v.Server.{
  TcpServer, Socket, Answers, new_server, start, start_socket, start_accepting, closesocket,
  wsa_cleanup, without, set_client, erase_client, accept_connection, remove_client, close_clients,
  close_server_socket, stop, destroy,
}
use simple_orderbook_v.Server.Handlers.Outcomes.{Answered}
use simple_orderbook_v.Server.Sockets.{
  count, sockets, listening, held, count-without, count-append, sockets-erase_client,
  count-set_client, count-close_clients, nowhere,
}

-- What a call of `start` on a server that was not started comes to.
pub data Started (s : TcpServer) (r : Outcome (Bool × TcpServer)) : Type 0 where
  failed :
      (t : TcpServer)
      → r ≡ returned (false, t)
      → t.startups ≡ t.cleanups
      → t.open_sockets ≡ []
      → t.running ≡ false
      → Started s r
  succeeded :
      (t : TcpServer) (k : Socket)
      → r ≡ returned (true, t)
      → t.startups ≡ suc t.cleanups
      → t.server_socket ≡ some k
      → t.open_sockets ≡ k ∷ []
      → t.running ≡ true
      → Started s r

without-first : (k : Socket) → without k (k ∷ []) ≡ []
without-first k = ground arith

pub start-Started :
    (book : Orderbook) (address : OrderPointer) (answers : Answers)
    → Started (new_server book address) (start answers (new_server book address))
unfolding start start_socket start_accepting closesocket wsa_cleanup new_server
start-Started book address answers = elim (Bool-cases answers.starts_up) [
  | inr e ↦ rw e (failed _ refl refl refl refl)
  | inl e ↦ elim (Option-cases answers.socket) [
    | inl f ↦ rw (e, f) (failed _ refl refl refl refl)
    | inr (k, f) ↦ elim (Bool-cases answers.sets_options) [
      | inr g ↦ rw (e, f, g) (failed _ refl refl (without-first k) refl)
      | inl g ↦ elim (Bool-cases answers.binds) [
        | inr h ↦ rw (e, f, g, h) (failed _ refl refl (without-first k) refl)
        | inl h ↦ elim (Bool-cases answers.listens) [
          | inr i ↦ rw (e, f, g, h, i) (failed _ refl refl (without-first k) refl)
          | inl i ↦ rw (e, f, g, h, i) (succeeded _ k refl refl refl refl refl)
        ]
      ]
    ]
  ]
]

-- A running server: it was started, takes the connections that the system gives it, which are of new
-- sockets, loses clients, and answers requests.
pub data IsRunning : TcpServer → Type 0 where
  started :
      (book : Orderbook) (address : OrderPointer) (answers : Answers) (s : TcpServer)
      → start answers (new_server book address) ≡ returned (true, s)
      → IsRunning s
  accepted :
      (k : Socket) (s : TcpServer)
      → IsRunning s
      → count k s.open_sockets ≡ 0
      → IsRunning (accept_connection k s).1
  removed :
      (k : Socket) (s : TcpServer)
      → IsRunning s
      → 1 ≤ count k (sockets s.clients)
      → IsRunning (remove_client k s)
  replied :
      (socket : Socket) (reply : List ℕ) (s t : TcpServer)
      → IsRunning s
      → Answered socket reply s t
      → IsRunning t

-- The open sockets are the ones that the server has a use for, each once, and Winsock is in use.
pub record HoldsSockets (s : TcpServer) : Type 0 where
  pub counted : (j : Socket) → count j s.open_sockets ≡ count j (held s)
  pub single : (j : Socket) → count j s.open_sockets ≤ 1
  pub balanced : s.startups ≡ suc s.cleanups

Started-HoldsSockets :
    (r : Outcome (Bool × TcpServer)) (book : Orderbook) (address : OrderPointer) (s : TcpServer)
    → Started (new_server book address) r
    → r ≡ returned (true, s)
    → s.clients ≡ []
    → HoldsSockets s
Started-HoldsSockets r book address s (failed t e b o i) h c = absurd (ground (arith, e, h))
Started-HoldsSockets r book address s (succeeded t k e b l o i) h c =
    let same : t ≡ s = ground (arith, e, h) in
    subst HoldsSockets same (record {
      counted = λ j. ground (arith, o, l, same, c);
      single = λ j. ground (arith, o);
      balanced = b;
    })

accepted-HoldsSockets :
    (k : Socket) (s : TcpServer)
    → HoldsSockets s
    → count k s.open_sockets ≡ 0
    → HoldsSockets (accept_connection k s).1
unfolding accept_connection
accepted-HoldsSockets k s h fresh =
    let apart : count k (sockets s.clients) ≡ 0 =
      omega (
        arith,
        fresh,
        h.counted k,
        count-append k (listening s.server_socket) (sockets s.clients),
      ) in
    record {
      counted = λ j. ground (
        arith,
        h.counted j,
        count-append j (listening s.server_socket) (sockets s.clients),
        count-append j (listening s.server_socket)
            (sockets (set_client k s.next_client_id s.clients)),
        count-set_client j k s.next_client_id s.clients apart,
      );
      single = λ j. ground (arith, h.single j, fresh);
      balanced = h.balanced;
    }

removed-HoldsSockets :
    (k : Socket) (s : TcpServer)
    → HoldsSockets s
    → 1 ≤ count k (sockets s.clients)
    → HoldsSockets (remove_client k s)
unfolding remove_client closesocket
removed-HoldsSockets k s h client = record {
  counted = λ j. ground (
    arith,
    h.counted j,
    h.single k,
    client,
    count-append j (listening s.server_socket) (sockets s.clients),
    count-append j (listening s.server_socket) (sockets (erase_client k s.clients)),
    sockets-erase_client k s.clients,
    count-without j k s.open_sockets,
    count-without j k (sockets s.clients),
  );
  single = λ j. omega (arith, h.single j, count-without j k s.open_sockets);
  balanced = h.balanced;
}

replied-HoldsSockets :
    (socket : Socket) (reply : List ℕ) (s t : TcpServer)
    → HoldsSockets s
    → Answered socket reply s t
    → HoldsSockets t
replied-HoldsSockets socket reply s t h a = record {
  counted = λ j. ground (arith, h.counted j, a.sockets, a.listening, a.clients);
  single = λ j. ground (arith, h.single j, a.sockets);
  balanced = ground (arith, h.balanced, a.winsock.0, a.winsock.1);
}

started-clients :
    (book : Orderbook) (address : OrderPointer) (answers : Answers) (s : TcpServer)
    → start answers (new_server book address) ≡ returned (true, s)
    → s.clients ≡ []
unfolding start start_socket start_accepting closesocket wsa_cleanup new_server
started-clients book address answers s e = ground (arith, e)

-- A running server holds on to each open socket, as its own or as a client's.
pub running-HoldsSockets : (s : TcpServer) → IsRunning s → HoldsSockets s
running-HoldsSockets _ (started book address answers s e) =
    Started-HoldsSockets _ book address s (start-Started book address answers) e
      (started-clients book address answers s e)
running-HoldsSockets _ (accepted k s r fresh) =
    accepted-HoldsSockets k s (running-HoldsSockets s r) fresh
running-HoldsSockets _ (removed k s r client) =
    removed-HoldsSockets k s (running-HoldsSockets s r) client
running-HoldsSockets _ (replied socket reply s t r a) =
    replied-HoldsSockets socket reply s t (running-HoldsSockets s r) a
